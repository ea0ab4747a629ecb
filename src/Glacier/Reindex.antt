-- ===== src/Glacier/Reindex.antt =====
-- The recovery of the index database in src/glacier.c: evr_glacier_reindex with all it calls. The
-- hash behind blob refs is a parameter, and opening it does not fail.
pub mod Visit
mod Ends
mod Rows
pub mod Bucket
mod Tests
use everarch.Prelude.{
  ℕ, zero, suc, ◌+◌, Bool, true, false, Option, none, some, List, [], ◌∷◌, ◌++◌, if◌then◌else◌,
  length, drop,
}
use everarch.Errors.{Status, ok, error, end, is_ok}
use everarch.Files.{Grant, Source, SideEffect, Read}
use everarch.Files.Pipe.{dump_n}
use everarch.Keys.TinySet.{ref_eq}
use everarch.Glacier.{
  Fd, closed, stdout, bucket, Glacier, Exec, done, failed, ◌|>◌, IndexDb, BlobPosition, contents,
  lseek, write_bucket_end_offset, syscall_next, syscall, close_current_bucket,
}
use everarch.Glacier.WriteBlob.{index_step, add_blob_to_index}
use everarch.Glacier.Walk.{BlobStat, walk_bucket}
use everarch.Glacier.ReadBlob.{validate_bucket_magic_number}

-- `evr_bucket_end_offset_corrupt`
abbrev pub end_offset_corrupt : ℕ
end_offset_corrupt = 0

abbrev pub returned : {Db : Type 0} → Exec Db → Status × Glacier Db
returned (done w) = (ok, w)
returned (failed w) = (error, w)

-- `evr_blob_ref_write_se`: the handle has the bytes that were written to it
unfoldable pub blob_ref_write_se : SideEffect (List ℕ)
blob_ref_write_se hd buf = (ok, hd ++ buf)

-- the bytes that a read of the descriptor gives; standard output gives none
abbrev pub readable : {Db : Type 0} → Glacier Db → Fd → List ℕ
readable w (bucket i) = contents (w.files i)
readable w _ = []

abbrev pub position : {Db : Type 0} → Glacier Db → BlobStat → BlobPosition
position w stat = record {
  key = stat.ref;
  flags = stat.flags;
  bucket_index = w.current_bucket_index;
  bucket_blob_offset = stat.offset;
  blob_size = stat.size;
  last_modified = stat.last_modified;
}

module _ {Db : Type 0} (sql : IndexDb Db) (hash : List ℕ → List ℕ) where
  -- `evr_blob_ref_hd_match` and what stands behind it
  abbrev pub visit_matched : BlobStat → Glacier Db → Bool → Status × Glacier Db
  visit_matched stat w false = (ok, w)
  visit_matched stat w true = returned (add_blob_to_index sql (position w stat) w)

  abbrev pub visit_hashed : BlobStat → Glacier Db → Status → List ℕ → Status × Glacier Db
  visit_hashed stat w ok hd = visit_matched stat w (ref_eq stat.ref (hash hd))
  visit_hashed stat w _ hd = (error, w)

  abbrev pub visit_dumped : BlobStat → Glacier Db → Read (List ℕ) → Status × Glacier Db
  visit_dumped stat w r =
      visit_hashed stat (record w { f_pos = w.f_pos + length r.ctx; grants = r.source.grants })
        r.status r.ctx

  abbrev pub visit_sought : BlobStat → Exec Db → Status × Glacier Db
  visit_sought stat (failed w) = (error, w)
  visit_sought stat (done w) = visit_dumped stat w (
      dump_n blob_ref_write_se
        (record { bytes = drop w.f_pos (readable w w.current_bucket_f); grants = w.grants })
        stat.size [])

  unfoldable pub reindex_visit_blob : Glacier Db → BlobStat → Status × Glacier Db
  unfolding lseek dump_n blob_ref_write_se add_blob_to_index ref_eq
  reindex_visit_blob w stat =
      if stat.checksum_valid then visit_sought stat (lseek stat.offset w) else (end, w)

  -- behind the walk: the end offset in the file and in the index
  unfoldable pub write_ends : ℕ → Glacier Db → Exec Db
  unfolding write_bucket_end_offset
  write_ends end_offset w =
      write_bucket_end_offset end_offset true w
      |> (λ v. index_step v (sql.insert_bucket v.db v.current_bucket_index))
      |> (λ v. index_step v (sql.update_bucket_end_offset v.db v.current_bucket_index end_offset))

  abbrev pub reindex_walked : Status × Glacier Db → Exec Db
  unfolding write_ends
  reindex_walked (ok, w) = syscall (write_ends (length (readable w w.current_bucket_f))) w
  reindex_walked (end, w) = write_ends end_offset_corrupt w
  reindex_walked (_, w) = failed w

  -- `evr_glacier_walk_bucket` opens the bucket's file again and has a schedule of its own, `gs`.
  abbrev pub reindex_walk : List Grant → Bool × List Grant → Glacier Db → Exec Db
  unfolding walk_bucket reindex_visit_blob reindex_walked
  reindex_walk gs (false, hs) w = failed (record w { grants = hs })
  reindex_walk gs (true, hs) w =
      syscall
        (λ v.
          reindex_walked
            (walk_bucket reindex_visit_blob (λ x n. (ok, x)) (readable v v.current_bucket_f) gs v))
        (record w { grants = hs })

  -- The bucket is closed in the end whatever happened; a failure of that does not change the result.
  abbrev pub closing : Exec Db → Status × Glacier Db
  unfolding close_current_bucket
  closing (done w) = (ok, (returned (close_current_bucket w)).1)
  closing (failed w) = (error, (returned (close_current_bucket w)).1)

  abbrev pub reindex_file : List Grant → Glacier Db → Option (List ℕ) → Exec Db
  unfolding reindex_walk validate_bucket_magic_number
  reindex_file gs w none = failed (record w { current_bucket_f = stdout })
  reindex_file gs w (some file) =
      reindex_walk gs (validate_bucket_magic_number file w.grants)
        (record w { current_bucket_f = bucket w.current_bucket_index; f_pos = 3 })

  abbrev pub reindex_open : List Grant → Glacier Db → List Bool → Exec Db
  unfolding reindex_file
  reindex_open gs w [] = reindex_file gs w (w.files w.current_bucket_index)
  reindex_open gs w (true ∷ fs) = reindex_file gs (record w { fails = fs }) none
  reindex_open gs w (false ∷ fs) =
      reindex_file gs (record w { fails = fs }) (w.files w.current_bucket_index)

  unfoldable pub reindex_bucket : List Grant → Glacier Db → ℕ → Status × Glacier Db
  unfolding reindex_open closing
  reindex_bucket gs w bucket_index =
      let v = record w { current_bucket_index = bucket_index } in
      closing (reindex_open gs v v.fails)

  abbrev pub reindex_next :
      (Glacier Db → Status × Glacier Db) → Status × Glacier Db → Status × Glacier Db
  reindex_next recur (ok, w) = recur w
  reindex_next recur (_, w) = (error, w)

  -- `evr_glacier_reindex`, over the buckets that evr_walk_buckets finds, each with the schedule of
  -- the reads of its walk
  unfoldable pub reindex : List (ℕ × List Grant) → Glacier Db → Status × Glacier Db
  unfolding reindex_bucket
  reindex [] w = (ok, w)
  reindex ((i, gs) ∷ is) w = reindex_next (reindex is) (reindex_bucket gs w i)
