-- ===== src/Glacier/Appended.antt =====
-- What stands in the bucket that a write context of src/glacier.c has open, before and after a blob is
-- appended to it.
use everarch.Prelude.{ℕ, ◌+◌, ◌≡◌, ◌≢◌, ◌⊎◌, refl, List, ◌++◌, some, length}
use everarch.Bytes.{push_be}
use everarch.Glacier.{
  Glacier, bucket, magic_number, IndexDb, BlobPosition, StepResult, step_done,
  constraint_primarykey, WritingBlob, bucket_blob_header_size,
}
use everarch.Glacier.Frame.{Steady}
use everarch.Glacier.Data.{blob_record}

-- The context writes the bucket `i`, whose file has the blobs `blobs`, the end offset behind them
-- and anything behind that.
pub record Open {Db : Type 0} (i : ℕ) (blobs : List ℕ) (w : Glacier Db) : Type 0 where
  pub fd : w.current_bucket_f ≡ bucket i
  pub index : w.current_bucket_index ≡ i
  pub pos : w.current_bucket_pos ≡ 7 + length blobs
  pub rest : List ℕ
  pub file : w.files i ≡ some (magic_number ++ push_be 4 (7 + length blobs) ++ blobs ++ rest)

-- The index database took the row `p`, or had its key already, and then the end offset.
pub record Indexed {Db : Type 0} (sql : IndexDb Db) (p : BlobPosition) (end_offset : ℕ)
    (db db' : Db) : Type 0 where
  pub mid : Db
  pub result : StepResult
  pub inserted : sql.insert_blob db p ≡ (result, mid)
  pub accepted : (result ≡ step_done) ⊎ (result ≡ constraint_primarykey)
  pub updated : sql.update_bucket_end_offset mid p.bucket_index end_offset ≡ (step_done, db')

abbrev pub position : WritingBlob → ℕ → ℕ → ℕ → BlobPosition
position blob now i offset = record {
  key = blob.key;
  flags = blob.flags;
  bucket_index = i;
  bucket_blob_offset = offset;
  blob_size = blob.size;
  last_modified = now;
}

pub record Appended {Db : Type 0} (sql : IndexDb Db) (i : ℕ) (blobs : List ℕ) (blob : WritingBlob)
    (now : ℕ) (w v : Glacier Db) : Type 0 where
  pub opened : Open i (blobs ++ blob_record blob now) v
  pub others : (j : ℕ) → j ≢ i → v.files j ≡ w.files j
  pub indexed :
      Indexed sql
        (position blob now i (7 + length blobs + bucket_blob_header_size))
        v.current_bucket_pos
        w.db
        v.db

pub Open-Steady :
    {Db : Type 0} (i : ℕ) (blobs : List ℕ) (w : Glacier Db) → Open i blobs w → Steady i w w
Open-Steady i blobs w o = record {
  fd = o.fd;
  pos = refl;
  index = refl;
  max = refl;
  db = refl;
  others = λ j ne. refl;
}
