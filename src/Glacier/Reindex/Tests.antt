-- ===== src/Glacier/Reindex/Tests.antt =====
-- A bucket with one blob for the theorem on the reindexing.
use everarch.Prelude.{
  ℕ, ◌≡◌, ◌≢◌, refl, ap, true, false, none, some, Option, List, [], ◌∷◌, ◌++◌, arith, length,
}
use everarch.Bytes.{push_be}
use everarch.Errors.{ok}
use everarch.Files.{give}
use everarch.Glacier.{
  Glacier, closed, step_error, BlobPosition, magic_number, bucket_header_size, store,
}
use everarch.Glacier.Walk.Records.{records_bytes}
use everarch.Glacier.Tests.{blob, blob-IsStorable}
use everarch.Glacier.Reindex.{reindex_bucket}
use everarch.Glacier.Reindex.Visit.{index_all}
use everarch.Glacier.Reindex.Bucket.{IsWorking, with_end, reindex_bucket_lem}
use everarch.Glacier.Tables.{Tables, tables, has_bucket, has_row, find_row, add_blob, add_bucket}

-- a stand-in for the hash that gives each content the ref of the blob
abbrev hash : List ℕ → List ℕ
hash bytes = blob.key

tables-IsWorking : IsWorking tables has_bucket
unfolding add_blob add_bucket
tables-IsWorking = record {
  inserts = λ db p. inserts (find_row db.0 p.key) db p;
  keeps_buckets = λ db p i. keeps (find_row db.0 p.key) db p i;
  inserts_bucket = λ db i e. ap (λ b. (add_bucket db i b).0) e;
  updates_bucket = λ db i n. refl;
}
  where
    inserts :
        (o : Option BlobPosition) (db : Tables) (p : BlobPosition)
        → (add_blob db p o).0 ≢ step_error
    inserts (some q) db p = cc
    inserts none db p = cc

    keeps :
        (o : Option BlobPosition) (db : Tables) (p : BlobPosition) (i : ℕ)
        → has_row (add_blob db p o).1.1 i ≡ has_row db.1 i
    keeps (some q) db p i = refl
    keeps none db p i = refl

abbrev old_file : List ℕ
old_file = magic_number ++ push_be 4 0 ++ records_bytes ((blob, 12) ∷ [])

abbrev lost : Glacier Tables
lost = record {
  files = store (λ j. none) 1 old_file;
  db = ([], (3, 20) ∷ []);
  fails = [];
  grants = give 2 ∷ [];
  max_bucket_size = 1000;
  current_bucket_index = 3;
  current_bucket_f = closed;
  f_pos = 0;
  current_bucket_pos = 0;
  current_bucket_sync = true;
}

no_row : has_bucket lost.db 1 ≡ false
unfolding has_row
no_row = refl

reindex_bucket_lem_example :
    (v : Glacier Tables) × (reindex_bucket tables hash (give 4 ∷ []) lost 1 ≡ (ok, v))
    × (v.db
        ≡ with_end tables hash 1 has_bucket tables-IsWorking
            (index_all tables hash 1 old_file lost.db bucket_header_size ((blob, 12) ∷ []))
            (length old_file))
    × (v.files 1
        ≡ some (magic_number ++ push_be 4 (length old_file) ++ records_bytes ((blob, 12) ∷ [])))
    × ((j : ℕ) → j ≢ 1 → v.files j ≡ lost.files j)
reindex_bucket_lem_example =
    reindex_bucket_lem tables hash 1 has_bucket tables-IsWorking ((blob, 12) ∷ []) 0 (give 4 ∷ [])
      (omega arith) tt (blob-IsStorable, tt) lost refl refl tt no_row
