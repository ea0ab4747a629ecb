-- ===== src/Glacier/Check/Tests.antt =====
-- A bucket with one blob for the theorems on the check of the index.
use everarch.Prelude.{ℕ, ◌≡◌, refl, some, List, [], ◌∷◌, ◌++◌, arith, replicate, if◌then◌else◌}
use everarch.Errors.{glacier_index_db_corrupt}
use everarch.Files.{give}
use everarch.Keys.TinySet.{ref_eq}
use everarch.Glacier.{magic_number}
use everarch.Glacier.ReadBlob.{found}
use everarch.Glacier.Tests.{stored, stored_rest}
use everarch.Glacier.Check.{row, check_blobs}
use everarch.Glacier.Check.Rows.{check_blobs_hashed}

-- a stand-in for the hash, under which the blob's bytes no longer have its ref
abbrev rotten : List ℕ → List ℕ
rotten bytes = replicate 28 9

abbrev ref : List ℕ
ref = replicate 28 4

check_blobs_hashed_example :
    check_blobs rotten 3
      (λ k. found stored)
      (λ i. some (magic_number ++ stored_rest))
      (row ref stored.flags stored.blob_size (give 1 ∷ give 0 ∷ give 0 ∷ []) ∷ [])
    ≡ (if ref_eq ref (rotten (8 ∷ 9 ∷ 10 ∷ []))
        then check_blobs rotten 3 (λ k. found stored) (λ i. some (magic_number ++ stored_rest)) []
        else some glacier_index_db_corrupt)
check_blobs_hashed_example =
    check_blobs_hashed rotten 3 (λ k. found stored) (λ i. some (magic_number ++ stored_rest)) ref
      stored (give 1 ∷ give 0 ∷ give 0 ∷ []) [] stored_rest (69 ∷ 86 ∷ 66 ∷ 0 ∷ 0 ∷ 0 ∷ 11 ∷ [])
      (8 ∷ 9 ∷ 10 ∷ []) (99 ∷ []) refl refl refl refl refl refl (omega arith) tt
