-- ===== src/Glacier/Check.antt =====
-- The check of the index database at the start, in src/glacier.c: evr_quick_check_glacier with
-- evr_glacier_check_index_db and evr_glacier_check_blobs. The hash behind blob refs is a parameter.
pub mod Rows
mod Tests
use everarch.Prelude.{
  ℕ, ◌≤◌, ◌≡◌, refl, sym, ap, ◌∙◌, Bool, true, false, Option, none, some, List, [], ◌∷◌, ◌++◌,
  arith, if◌then◌else◌, ◌==◌, length, append-nil, append_assoc, ==_iff,
}
use everarch.Errors.{Status, ok, error, glacier_index_db_corrupt}
use everarch.Files.{Grant}
use everarch.Files.ReadN.{Flows}
use everarch.Keys.TinySet.{ref_eq}
use everarch.Glacier.{BlobPosition, magic_number}
use everarch.Glacier.Directory.{blob_check_status}
use everarch.Glacier.ReadBlob.{
  Lookup, found, missing, told, read_opened, read_bucket, validate_bucket_magic_number, read_blob,
  read_blob_returns,
}

-- `struct evr_glacier_blob_check_ctx`; `hd` has the bytes that were hashed
pub record BlobCheckCtx : Type 0 where
  pub ref : List ℕ
  pub flags : ℕ
  pub blob_size : ℕ
  pub ret : Status
  pub hd : List ℕ

abbrev pub check_status : BlobCheckCtx → Bool → ℕ → ℕ → Status × BlobCheckCtx
unfolding blob_check_status
check_status ctx exists flags blob_size =
    let (res, ret) = blob_check_status ctx.flags ctx.blob_size exists flags blob_size in
    (res, record ctx { ret = ret })

-- `evr_glacier_blob_check_data`
abbrev pub blob_check_data : BlobCheckCtx → List ℕ → Bool × BlobCheckCtx
blob_check_data ctx bs = (true, record ctx { hd = ctx.hd ++ bs })

-- what a step of the statement that finds the blobs gives, with the schedule of the reads of the blob
pub data Found : Type 0 where
  row : List ℕ → ℕ → ℕ → List Grant → Found
  step_failed : Found

module _ (hash : List ℕ → List ℕ) (fuel : ℕ) (find : List ℕ → Lookup)
    (files : ℕ → Option (List ℕ)) where
  abbrev pub check_matched : Option Status → Bool → Option Status
  check_matched rest true = rest
  check_matched rest false = some glacier_index_db_corrupt

  abbrev pub check_ret : Option Status → BlobCheckCtx → Status → Option Status
  check_ret rest ctx ok = check_matched rest (ref_eq ctx.ref (hash ctx.hd))
  check_ret rest ctx glacier_index_db_corrupt = some glacier_index_db_corrupt
  check_ret rest ctx _ = some error

  -- what follows `evr_glacier_read_blob`
  abbrev pub check_read : Option Status → Option (Status × BlobCheckCtx) → Option Status
  check_read rest none = none
  check_read rest (some (ok, ctx)) = check_ret rest ctx ctx.ret
  check_read rest (some (_, ctx)) = some error

  -- `evr_glacier_check_blobs`, over the rows that its statement gives; `none` is a read that does not
  -- end
  unfoldable pub check_blobs : List Found → Option Status
  unfolding check_status read_blob
  check_blobs [] = some ok
  check_blobs (step_failed ∷ rows) = some error
  check_blobs (row ref flags blob_size gs ∷ rows) =
      let rest = check_blobs rows in
      if length ref == 28
      then check_read rest (
          read_blob check_status blob_check_data fuel files (find ref) gs
            (record { ref = ref; flags = flags; blob_size = blob_size; ret = error; hd = [] }))
      else some glacier_index_db_corrupt

-- what the step of `find_bucket_end_offset_stmt` gives
pub data EndOffset : Type 0 where
  at : ℕ → EndOffset
  no_row lookup_failed : EndOffset

abbrev pub checked_next : Status → Status → Status
checked_next random ok = random
checked_next random glacier_index_db_corrupt = glacier_index_db_corrupt
checked_next random _ = error

abbrev pub checked : Status → Status
checked ok = ok
checked glacier_index_db_corrupt = glacier_index_db_corrupt
checked _ = error

-- `evr_glacier_check_index_db`: the end of the file, which lseek may not tell, what the index says
-- of it, and the results of the checks of the latest blobs and of some random ones
unfoldable pub check_index_db : Option ℕ → EndOffset → Status → Status → Status
check_index_db none offset latest random = error
check_index_db (some end_offset) no_row latest random = glacier_index_db_corrupt
check_index_db (some end_offset) lookup_failed latest random = glacier_index_db_corrupt
check_index_db (some end_offset) (at db_end_offset) latest random =
    if db_end_offset == end_offset
    then checked_next (checked random) latest
    else glacier_index_db_corrupt

-- `evr_quick_check_glacier`, of the results of opening the write context, of the check, of freeing
-- the context and of evr_glacier_recreate_index_db. The second part says whether the index was recreated.
abbrev pub recreated : Status → Status × Bool
recreated ok = (ok, true)
recreated _ = (error, true)

abbrev pub quick_checked : Status → Status → Status × Bool
quick_checked ok recreate = (ok, false)
quick_checked glacier_index_db_corrupt recreate = recreated recreate
quick_checked _ recreate = (error, false)

abbrev pub quick_freed : Status → Status → Status → Status × Bool
quick_freed ok check recreate = quick_checked check recreate
quick_freed _ check recreate = (error, false)

unfoldable pub quick_check : Status → Status → Status → Status → Status × Bool
quick_check ok check free recreate = quick_freed free check recreate
quick_check glacier_index_db_corrupt check free recreate = recreated recreate
quick_check _ check free recreate = (error, false)
