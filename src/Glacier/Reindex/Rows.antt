-- ===== src/Glacier/Reindex/Rows.antt =====
-- What a walk with `evr_glacier_reindex_visit_blob` does to the index.
use everarch.Prelude.{
  ℕ, ◌+◌, ◌≡◌, refl, sym, ap, subst, ◌∙◌, Option, List, [], ◌∷◌, ◌++◌, arith, length, take, drop,
  All, append_assoc, length-append, drop-append, length-take,
}
use native.Mathlib.Nat.{mod-eq_of_lt}
use everarch.Bytes.{u32}
use everarch.Errors.{Status}
use everarch.Glacier.{Glacier, IndexDb, WritingBlob, bucket_blob_header_size}
use everarch.Glacier.WriteBlob.{blob_header}
use everarch.Glacier.Data.{blob_record, length-blob_header}
use everarch.Glacier.Chunks.{concat}
use everarch.Glacier.Walk.{BlobStat, walk_visited}
use everarch.Glacier.Walk.Header.{stat_of}
use everarch.Glacier.Walk.Records.{IsStorable, records_bytes, stats, visits}
use everarch.Glacier.Reindex.{reindex_visit_blob}
use everarch.Glacier.Reindex.Visit.{Ready, IsInserting, indexed, index_all, Visited, visit_lem}

module _ {Db : Type 0} (sql : IndexDb Db) (hash : List ℕ → List ℕ) (i : ℕ) (file : List ℕ)
    (ins : IsInserting sql) where
  went_on :
      (db : Db) (files : ℕ → Option (List ℕ)) (x : Status × Glacier Db)
      (next : Glacier Db → Status × Glacier Db) (db' : Db → Db)
      → Visited sql hash i file db files x
      → ((v : Glacier Db) → Ready i file v → Visited sql hash i file (db' v.db) v.files (next v))
      → Visited sql hash i file (db' db) files (walk_visited next x)
  went_on db files x next db' (v, e, d, r, f) k =
      subst (λ y. Visited sql hash i file (db' db) files (walk_visited next y)) (sym e)
        (subst (λ b. Visited sql hash i file (db' b) files (next v)) d
          (subst (λ g. Visited sql hash i file (db' v.db) g (next v)) f (k v r)))

  split_file :
      (front : List ℕ) (blob : WritingBlob) (now : ℕ) (rs : List (WritingBlob × ℕ))
      → front ++ records_bytes ((blob, now) ∷ rs)
        ≡ (front ++ blob_header blob now)
          ++ (take blob.size (concat blob.chunks) ++ records_bytes rs)
  unfolding records_bytes blob_record
  split_file front blob now rs =
      ap (λ x. front ++ x)
        (append_assoc (blob_header blob now) (take blob.size (concat blob.chunks))
          (records_bytes rs))
      ∙ sym (
          append_assoc front (blob_header blob now)
            (take blob.size (concat blob.chunks) ++ records_bytes rs))

  pub visits_lem :
      (rs : List (WritingBlob × ℕ)) (front : List ℕ) (pos : ℕ) (w : Glacier Db)
      → file ≡ front ++ records_bytes rs
      → length front ≡ pos
      → All IsStorable rs
      → Ready i file w
      → Visited sql hash i file
          (index_all sql hash i file w.db pos rs)
          w.files
          (visits (reindex_visit_blob sql hash) w (stats pos rs))
  unfolding visits stats index_all
  visits_lem [] front pos w e len h r = (w, refl, refl, r, refl)
  visits_lem ((blob, now) ∷ rs) front pos w e len (((key, (chunked, full)), small), hs) r =
      went_on (indexed sql hash i file w.db stat bytes) w.files (reindex_visit_blob sql hash w stat)
        (λ v.
          visits (reindex_visit_blob sql hash) v
            (stats (pos + bucket_blob_header_size + blob.size) rs))
        (λ db. index_all sql hash i file db (pos + bucket_blob_header_size + blob.size) rs)
        (visit_lem sql hash i file w stat bytes (records_bytes rs) ins r refl
          (ap (drop (pos + bucket_blob_header_size)) whole
            ∙ drop-append (pos + bucket_blob_header_size) (front ++ blob_header blob now)
                (bytes ++ records_bytes rs)
                (omega (arith, len, length-append front (blob_header blob now), header)))
          (count ∙ sym (mod-eq_of_lt {n = blob.size} {m = u32} small)))
        (λ v rv.
          visits_lem rs (front ++ blob_header blob now ++ bytes)
            (pos + bucket_blob_header_size + blob.size) v
            (whole ∙ sym (append_assoc (front ++ blob_header blob now) bytes (records_bytes rs)))
            (omega (
              arith,
              len,
              header,
              count,
              length-append (front ++ blob_header blob now) bytes,
              length-append front (blob_header blob now),
            ))
            hs rv)
    where
      bytes : List ℕ
      bytes = take blob.size (concat blob.chunks)

      stat : BlobStat
      stat = stat_of blob now (pos + bucket_blob_header_size)

      header : length (blob_header blob now) ≡ 42
      header = length-blob_header blob now key

      count : length bytes ≡ blob.size
      count = omega (arith, full, length-take blob.size (concat blob.chunks))

      whole : file ≡ (front ++ blob_header blob now) ++ (bytes ++ records_bytes rs)
      whole = e ∙ split_file front blob now rs
