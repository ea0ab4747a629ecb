-- ===== src/Glacier/ReadBack.antt =====
-- What `evr_glacier_append_blob` of src/glacier.c wrote is what `evr_glacier_read_blob` reads, over the
-- rows that sqlite keeps.
use everarch.Prelude.{
  ℕ, suc, ◌+◌, ◌≤◌, ◌≡◌, ◌≢◌, ◌⊎◌, inl, inr, sym, ap, ◌∙◌, Bool, true, Option, none, some, List, [],
  ◌++◌, arith, length, take, append_assoc, length-append, length-take,
}
use everarch.Errors.{Status, ok}
use everarch.Bytes.{push_be}
use everarch.Bytes.Codec.{length-push_be}
use everarch.Files.{Grant}
use everarch.Files.ReadN.{Flows}
use everarch.Glacier.{
  Glacier, stdout, BlobPosition, step_done, constraint_primarykey, IndexDb, magic_number,
  bucket_blob_header_size, WritingBlob,
}
use everarch.Glacier.WriteBlob.{blob_header, append_blob}
use everarch.Glacier.Frame.{Post, Post-map}
use everarch.Glacier.Chunks.{concat}
use everarch.Glacier.Data.{IsWritable, blob_record, length-blob_header}
use everarch.Glacier.Appended.{Open, Indexed, position, Appended}
use everarch.Glacier.AppendBlob.{AppendEnds, Intact, append_blob_lem}
use everarch.Glacier.ReadBlob.{Lookup, found, missing, read_blob, read_blob_returns}

-- What is relied on of sqlite: a row that was inserted is found under its key, a key is refused only
-- where it is there already, and the rows of the buckets do not matter to it.
pub record Finds {Db : Type 0} (sql : IndexDb Db) : Type 0 where
  pub inserted :
      (db : Db) (p : BlobPosition)
      → (sql.insert_blob db p).0 ≡ step_done
      → sql.find_blob (sql.insert_blob db p).1 p.key ≡ some p
  pub accepts :
      (db : Db) (p : BlobPosition)
      → sql.find_blob db p.key ≡ none
      → (sql.insert_blob db p).0 ≢ constraint_primarykey
  pub bucket_keeps :
      (db : Db) (i : ℕ) (key : List ℕ)
      → sql.find_blob (sql.insert_bucket db i).1 key ≡ sql.find_blob db key
  pub end_keeps :
      (db : Db) (i n : ℕ) (key : List ℕ)
      → sql.find_blob (sql.update_bucket_end_offset db i n).1 key ≡ sql.find_blob db key

-- the step of `find_blob_stmt`, where it does not fail
abbrev pub lookup : Option BlobPosition → Lookup
lookup none = missing
lookup (some p) = found p

-- The record of a blob stands in its file between what is in front of its bytes and behind them.
regroup :
    (a b c d e f : List ℕ) → ((a ++ b) ++ (c ++ (d ++ e))) ++ f ≡ (((a ++ b) ++ c) ++ d) ++ (e ++ f)
regroup a b c d e f =
    append_assoc (a ++ b) (c ++ (d ++ e)) f
    ∙ ap (λ x. (a ++ b) ++ x) (append_assoc c (d ++ e) f ∙ ap (λ x. c ++ x) (append_assoc d e f))
    ∙ sym (append_assoc (a ++ b) c (d ++ (e ++ f)))
    ∙ sym (append_assoc ((a ++ b) ++ c) d (e ++ f))

pull_front : (a b c d : List ℕ) → ((a ++ b) ++ c) ++ d ≡ a ++ ((b ++ c) ++ d)
pull_front a b c d = ap (λ x. x ++ d) (append_assoc a b c) ∙ append_assoc a (b ++ c) d

module _ {Db : Type 0} (sql : IndexDb Db) (finds : Finds sql) (blob : WritingBlob) (now : ℕ)
    (ready : IsWritable blob) where
  abbrev pub body : List ℕ
  body = take blob.size (concat blob.chunks)

  row_found :
      (k offset n : ℕ) (db db' : Db)
      → Indexed sql (position blob now k offset) n db db'
      → sql.find_blob db blob.key ≡ none
      → sql.find_blob db' blob.key ≡ some (position blob now k offset)
  row_found k offset n db db' x new =
      sym (ap (λ r. sql.find_blob r.1 blob.key) x.updated)
      ∙ finds.end_keeps x.mid k n blob.key
      ∙ sym (ap (λ r. sql.find_blob r.1 blob.key) x.inserted)
      ∙ finds.inserted db p (ap (λ r. r.0) x.inserted ∙ done x.accepted)
    where
      p : BlobPosition
      p = position blob now k offset

      done : (x.result ≡ step_done) ⊎ (x.result ≡ constraint_primarykey) → x.result ≡ step_done
      done (inl e) = e
      done (inr e) = absurd (finds.accepts db p new (ap (λ r. r.0) x.inserted ∙ e))

  module _ {C : Type 0} (status : C → Bool → ℕ → ℕ → Status × C) (on_data : C → List ℕ → Bool × C)
      (update : C → List ℕ → C)
      (data_ok : (c : C) (bs : List ℕ) → on_data c bs ≡ (true, update c bs))
      (update-nil : (c : C) → update c [] ≡ c)
      (update-append : (c : C) (xs ys : List ℕ) → update (update c xs) ys ≡ update c (xs ++ ys))
      (fuel : ℕ) (gs : List Grant) (c c1 : C) (small : blob.size ≤ fuel) (flows : Flows gs)
      (accepts : status c true blob.flags blob.size ≡ (ok, c1)) where
    -- Reading the blob gives its bytes.
    abbrev pub ReadsBack : Glacier Db → Type 0
    ReadsBack v =
        read_blob status on_data fuel v.files (lookup (sql.find_blob v.db blob.key)) gs c
        ≡ some (ok, update c1 body)

    appended_lem :
        (k : ℕ) (old : List ℕ) (u v : Glacier Db)
        → Appended sql k old blob now u v
        → sql.find_blob u.db blob.key ≡ none
        → ReadsBack v
    unfolding blob_record
    appended_lem k old u v a new =
        ap (λ o. read_blob status on_data fuel v.files (lookup o) gs c)
          (row_found k (7 + length old + bucket_blob_header_size) v.current_bucket_pos u.db v.db
            a.indexed new)
        ∙ read_blob_returns status on_data update data_ok update-nil update-append fuel v.files
            (position blob now k (7 + length old + bucket_blob_header_size)) gs c c1
            ((ends ++ (old ++ (header ++ body))) ++ a.opened.rest)
            (((magic_number ++ ends) ++ old) ++ header) body a.opened.rest
            (a.opened.file
              ∙ ap some (pull_front magic_number ends (old ++ (header ++ body)) a.opened.rest))
            (sym (pull_front magic_number ends (old ++ (header ++ body)) a.opened.rest)
              ∙ regroup magic_number ends old header body a.opened.rest)
            (omega (
              arith,
              length-append ((magic_number ++ ends) ++ old) header,
              length-append (magic_number ++ ends) old,
              length-append magic_number ends,
              length-push_be 4 (7 + length (old ++ blob_record blob now)),
              length-blob_header blob now ready.0,
            ))
            (let (_, full) = ready.1 in
              omega (arith, full, length-take blob.size (concat blob.chunks)))
            small flows accepts
      where
        ends : List ℕ
        ends = push_be 4 (7 + length (old ++ blob_record blob now))

        header : List ℕ
        header = blob_header blob now

    -- However the writes are cut and whatever system calls fail: when evr_glacier_append_blob returns
    -- evr_ok for a blob whose key has no row yet, evr_glacier_read_blob then gives on_data exactly the
    -- bytes of the blob and returns evr_ok, unless standard output was taken for the bucket because
    -- its file could not be opened; then no file has changed. When it fails, the earlier blobs are
    -- where they stood. Relied on are that reads do not fail and that sqlite finds what it was given.
    pub append-read :
        (i : ℕ) (blobs : List ℕ) (w : Glacier Db)
        → Open i blobs w
        → sql.find_blob w.db blob.key ≡ none
        → Post
            (λ v. ReadsBack v ⊎ ((v.current_bucket_f ≡ stdout) × (v.files ≡ w.files)))
            (Intact i blobs w)
            (append_blob sql blob now w)
    append-read i blobs w o new =
        Post-map (append_blob sql blob now w) (append_blob_lem sql i blobs blob now w o ready) ends
          (λ v h. h)
      where
        ends :
            (v : Glacier Db)
            → AppendEnds sql i blobs blob now w v
            → ReadsBack v ⊎ ((v.current_bucket_f ≡ stdout) × (v.files ≡ w.files))
        ends v (inl (a, _)) = inl (appended_lem i blobs w v a new)
        ends v (inr (inl (u, next, a, _))) = inl (
            appended_lem (suc i) [] u v a (
              sym (ap (λ r. sql.find_blob r.1 blob.key) next.inserted)
              ∙ finds.bucket_keeps w.db (suc i) blob.key
              ∙ new))
        ends v (inr (inr k)) = inr k
