-- ===== src/OpenFiles/Tests.antt =====
-- A file of two slices, whose second slice is cached.
use everarch.Prelude.{
  ℕ, ◌≡◌, refl, true, some, none, Option, List, [], ◌∷◌, arith, take, drop, replicate, get_or,
}
use everarch.Errors.{ok}
use everarch.Glacier.Chunks.{concat}
use everarch.Client.AtOnce.{at_once, at_once-Answers}
use everarch.OpenFiles.{FileSlice, OpenFile, open_file_read}
use everarch.OpenFiles.Slice.{Coherent}
use everarch.OpenFiles.Read.{open_file_read_lem, short_blob_overread}

abbrev blobs : List ℕ → Option (ℕ × List ℕ)
blobs key = some (5, get_or key 0 0 ∷ get_or key 0 0 ∷ [])

abbrev first_byte : List ℕ → List ℕ
first_byte bs = replicate 28 (get_or bs 0 0)

abbrev slice : ℕ → ℕ → FileSlice
slice b size = record { ref = replicate 28 b; size = size }

abbrev file : List FileSlice → OpenFile (List ℕ)
file slices = record {
  gc = some [];
  slices = slices;
  cached_slice_index = 1;
  cached_slice_buf = some (9 ∷ 9 ∷ []);
}

abbrev two_slices : OpenFile (List ℕ)
two_slices = file (slice 8 2 ∷ slice 9 2 ∷ [])

abbrev bodies : List (List ℕ)
bodies = (8 ∷ 8 ∷ []) ∷ (9 ∷ 9 ∷ []) ∷ []

open_file_read_lem_example :
    (g : OpenFile (List ℕ)) × (open_file_read
        (at_once blobs)
        first_byte
        (λ _. true)
        true
        two_slices
        2
        1
      ≡ some (ok, take 2 (drop 1 (concat bodies)), g))
    × Coherent (at_once blobs) (λ c bs. c ≡ bs) blobs (at_once-Answers blobs) first_byte g bodies
open_file_read_lem_example =
    open_file_read_lem (at_once blobs) (λ c bs. c ≡ bs) blobs (at_once-Answers blobs) first_byte
      (λ _. true) (λ _. refl) two_slices 2 1 bodies
      ((refl, omega arith, refl, 5, refl), refl, ((refl, omega arith, refl, 5, refl), refl, tt))
      ([], refl, refl, refl)

-- The claim says three bytes, and the blob has two.
abbrev short_slice : OpenFile (List ℕ)
short_slice = record (file (slice 8 3 ∷ [])) { cached_slice_buf = none }

short_blob_overread_example :
    open_file_read (at_once blobs) first_byte (λ _. true) true short_slice 3 0 ≡ none
short_blob_overread_example =
    short_blob_overread (at_once blobs) (λ c bs. c ≡ bs) blobs (at_once-Answers blobs) first_byte
      (λ _. true) (λ _. refl) short_slice (slice 8 3) [] (8 ∷ 8 ∷ []) [] 3 refl
      (refl, omega arith, refl, 5, refl) (omega arith) (omega arith) ([], refl, refl, tt)
