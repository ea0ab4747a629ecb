-- ===== src/Glacier/ReadBackTests.antt =====
-- A blob that is appended to an empty bucket and read back.
use everarch.Prelude.{
  ℕ, ◌≡◌, ◌≢◌, ◌⊎◌, refl, ap, Bool, true, false, Option, none, some, List, [], ◌∷◌, ◌++◌,
  append-nil, append_assoc, if◌then◌else◌, arith,
}
use everarch.Errors.{Status, ok}
use everarch.Bytes.{push_be}
use everarch.Files.{give}
use everarch.Keys.TinySet.Spec.{ref_eq_iff}
use everarch.Glacier.{
  Glacier, bucket, stdout, BlobPosition, step_done, constraint_primarykey, magic_number, store,
}
use everarch.Glacier.WriteBlob.{append_blob}
use everarch.Glacier.Frame.{Post}
use everarch.Glacier.Appended.{Open}
use everarch.Glacier.AppendBlob.{Intact}
use everarch.Glacier.Tables.{Tables, tables, has_row, find_row, add_blob, add_bucket}
use everarch.Glacier.Tests.{blob, blob-IsWritable}
use everarch.Glacier.ReadBack.{Finds, ReadsBack, append-read}

tables-Finds : Finds tables
unfolding find_row add_blob add_bucket
tables-Finds = record {
  inserted = λ db p e. found (find_row db.0 p.key) db p e;
  accepts = λ db p e. accepted (find_row db.0 p.key) db p e;
  bucket_keeps = λ db i key. keeps (has_row db.1 i) db i key;
  end_keeps = λ db i n key. refl;
}
  where
    found :
        (o : Option BlobPosition) (db : Tables) (p : BlobPosition)
        → (add_blob db p o).0 ≡ step_done
        → find_row (add_blob db p o).1.0 p.key ≡ some p
    found (some q) db p e = cc
    found none db p e =
        ap (λ b. if b then some p else find_row db.0 p.key) ((ref_eq_iff p.key p.key).1 refl)

    accepted :
        (o : Option BlobPosition) (db : Tables) (p : BlobPosition)
        → o ≡ none
        → (add_blob db p o).0 ≢ constraint_primarykey
    accepted (some q) db p e = absurd (some_none e)
      where
        some_none : some q ≡ Option.none → ⊥
        some_none h = cc
    accepted none db p e = cc

    keeps :
        (b : Bool) (db : Tables) (i : ℕ) (key : List ℕ)
        → find_row (add_bucket db i b).1.0 key ≡ find_row db.0 key
    keeps true db i key = refl
    keeps false db i key = refl

abbrev accept : List ℕ → Bool → ℕ → ℕ → Status × List ℕ
accept c exists flags size = (ok, c)

abbrev take_data : List ℕ → List ℕ → Bool × List ℕ
take_data c bs = (true, c ++ bs)

-- the first write and the first reads are cut
abbrev empty_glacier : Glacier Tables
empty_glacier = record {
  files = store (λ j. none) 1 (magic_number ++ push_be 4 7 ++ [] ++ []);
  db = ([], (1, 7) ∷ []);
  fails = [];
  grants = give 2 ∷ [];
  max_bucket_size = 2000000;
  current_bucket_index = 1;
  current_bucket_f = bucket 1;
  f_pos = 0;
  current_bucket_pos = 7;
  current_bucket_sync = true;
}

empty-Open : Open 1 [] empty_glacier
empty-Open = record { fd = refl; index = refl; pos = refl; rest = []; file = refl }

no_row : find_row [] blob.key ≡ none
unfolding find_row
no_row = refl

append-read_example :
    Post
      (λ v.
        ReadsBack tables tables-Finds blob 12 blob-IsWritable accept take_data
          (λ c bs. c ++ bs)
          (λ c bs. refl)
          (λ c. append-nil c)
          (λ c xs ys. append_assoc c xs ys)
          blob.size
          (give 1 ∷ give 0 ∷ [])
          []
          []
          (omega arith)
          tt
          refl
          v
        ⊎ ((v.current_bucket_f ≡ stdout) × (v.files ≡ empty_glacier.files)))
      (Intact 1 [] empty_glacier)
      (append_blob tables blob 12 empty_glacier)
append-read_example =
    append-read tables tables-Finds blob 12 blob-IsWritable accept take_data (λ c bs. c ++ bs)
      (λ c bs. refl) (λ c. append-nil c) (λ c xs ys. append_assoc c xs ys) blob.size
      (give 1 ∷ give 0 ∷ []) [] [] (omega arith) tt refl 1 [] empty_glacier empty-Open no_row
