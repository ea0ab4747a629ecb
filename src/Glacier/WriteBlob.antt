-- ===== src/Glacier/WriteBlob.antt =====
-- The buckets and blobs that src/glacier.c writes: the next bucket of a write context, and
-- evr_glacier_append_blob.
use everarch.Prelude.{
  ℕ, zero, suc, ◌+◌, ◌-◌, min, Bool, true, false, ◌||◌, List, [], ◌∷◌, ◌++◌, if◌then◌else◌, ltb,
  take,
}
use everarch.Bytes.{push_u8, push_be, push_checksum}
use everarch.Glacier.{
  Fd, closed, stdout, bucket, Glacier, Exec, done, failed, ◌|>◌, BlobPosition, StepResult,
  step_done, step_error, IndexDb, bucket_header_size, bucket_blob_header_size, chunk_size,
  WritingBlob, store, is_some, lseek, write_current, fdatasync, sync_when,
  write_bucket_magic_number, write_bucket_end_offset, close_current_bucket,
}

module _ {Db : Type 0} where
  -- `open(bucket_path, O_RDWR | O_CREAT | O_EXCL)`. On an error `evr_open_bucket` returns 1,
  -- which its caller takes for a file descriptor.
  abbrev pub create_bucket_file : Glacier Db → ℕ → Bool → Glacier Db
  create_bucket_file w i true = record w { current_bucket_f = stdout }
  create_bucket_file w i false = record w {
    files = store w.files i [];
    current_bucket_f = bucket i;
    f_pos = 0;
  }

  abbrev pub open_next : Glacier Db → ℕ → List Bool → Glacier Db
  open_next w i [] = create_bucket_file w i (is_some (w.files i))
  open_next w i (true ∷ fs) = create_bucket_file (record w { fails = fs }) i true
  open_next w i (false ∷ fs) = create_bucket_file (record w { fails = fs }) i (is_some (w.files i))

  abbrev pub opened : Fd → Glacier Db → Exec Db
  opened closed w = failed w
  opened _ w = done w

  -- `open_current_bucket(ctx, 1)`
  unfoldable pub open_new_bucket : Glacier Db → Exec Db
  open_new_bucket w =
      let v = open_next w w.current_bucket_index w.fails in opened v.current_bucket_f v

  abbrev pub index_step : Glacier Db → StepResult × Db → Exec Db
  index_step w (step_done, db) = done (record w { db = db })
  index_step w (_, db) = failed (record w { db = db })

  -- the step of `insert_blob_stmt`: a key that is already there is no error
  abbrev pub index_insert_step : Glacier Db → StepResult × Db → Exec Db
  index_insert_step w (step_error, db) = failed (record w { db = db })
  index_insert_step w (_, db) = done (record w { db = db })

  -- the `goto out` behind a failed open takes the index back
  abbrev pub back_index : Exec Db → Exec Db
  back_index (done w) = done w
  back_index (failed w) = failed (record w { current_bucket_index = w.current_bucket_index - 1 })

  unfoldable pub create_next_bucket : IndexDb Db → Glacier Db → Exec Db
  unfolding close_current_bucket open_new_bucket write_bucket_magic_number write_bucket_end_offset
  create_next_bucket sql w =
      close_current_bucket w
      |> (λ v.
          back_index
            (open_new_bucket (record v { current_bucket_index = suc v.current_bucket_index })))
      |> (λ v. write_bucket_magic_number (record v { current_bucket_pos = bucket_header_size }))
      |> (λ v. write_bucket_end_offset v.current_bucket_pos true v)
      |> (λ v. index_step v (sql.insert_bucket v.db v.current_bucket_index))

  unfoldable pub add_blob_to_index : IndexDb Db → BlobPosition → Glacier Db → Exec Db
  add_blob_to_index sql p w = index_insert_step w (sql.insert_blob w.db p)

  -- the loop over `blob->chunks`. Too few chunks would be read past their array, which the model
  -- answers with a failure.
  unfoldable pub write_chunks : ℕ → List (List ℕ) → Glacier Db → Exec Db
  unfolding write_current
  write_chunks zero cs w = done w
  write_chunks (suc n) [] w = failed w
  write_chunks (suc n) (c ∷ cs) w =
      write_current (take (min (suc n) chunk_size) c) w
      |> write_chunks (suc n - min (suc n) chunk_size) cs

-- the header that stands in front of each blob
unfoldable pub blob_header : WritingBlob → ℕ → List ℕ
unfolding push_u8 push_be push_checksum
blob_header blob last_modified =
    push_checksum (blob.key ++ push_u8 blob.flags ++ push_be 8 last_modified ++ push_be 4 blob.size)

module _ {Db : Type 0} (sql : IndexDb Db) where
  -- the part of `evr_glacier_append_blob` behind the choice of the bucket
  unfoldable pub append_to_current : WritingBlob → ℕ → Glacier Db → Exec Db
  unfolding lseek write_current write_chunks fdatasync write_bucket_end_offset add_blob_to_index
      blob_header
  append_to_current blob now w =
      lseek w.current_bucket_pos w
      |> write_current (blob_header blob now)
      |> write_chunks blob.size blob.chunks
      |> sync_when blob.sync_per_blob
      |> (λ v. done (record v {
        current_bucket_pos = v.current_bucket_pos + (bucket_blob_header_size + blob.size);
        current_bucket_sync = blob.sync_per_blob || v.current_bucket_sync;
      }))
      |> (λ v. write_bucket_end_offset v.current_bucket_pos blob.sync_per_blob v)
      |> (λ v. done (record v { current_bucket_sync = blob.sync_per_blob }))
      |> (λ v.
          add_blob_to_index sql
            (record {
              key = blob.key;
              flags = blob.flags;
              bucket_index = v.current_bucket_index;
              bucket_blob_offset = w.current_bucket_pos + bucket_blob_header_size;
              blob_size = blob.size;
              last_modified = now;
            })
            v)
      |> (λ v.
          index_step v
            (sql.update_bucket_end_offset v.db v.current_bucket_index v.current_bucket_pos))

  abbrev pub next_bucket_when : Bool → Glacier Db → Exec Db
  next_bucket_when true w = create_next_bucket sql w
  next_bucket_when false w = done w

  -- `now` is what `evr_now` puts into `*last_modified`.
  unfoldable pub append_blob : WritingBlob → ℕ → Glacier Db → Exec Db
  unfolding create_next_bucket append_to_current
  append_blob blob now w =
      if ltb w.max_bucket_size (bucket_header_size + (bucket_blob_header_size + blob.size))
      then failed w
      else next_bucket_when
          (ltb w.max_bucket_size (w.current_bucket_pos + (bucket_blob_header_size + blob.size))) w
        |> append_to_current blob now
