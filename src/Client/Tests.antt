-- ===== src/Client/Tests.antt =====
-- Blobs of two bytes, and one of the largest size, are asked for.
use everarch.Prelude.{
  ℕ, zero, suc, ◌≡◌, refl, ap, true, none, some, Option, List, [], ◌∷◌, arith, length, replicate,
  get_or,
}
use everarch.Server.Commands.{max_blob_data_size}
use everarch.Client.{req_cmd_get_blob, read_cmd_get_resp_blob}
use everarch.Client.AtOnce.{at_once, at_once-Answers}
use everarch.Client.Fetch.{blob_resp, fetch_blob_lem, largest_blob_refused}

-- two bytes that are those of the key
abbrev two_bytes : List ℕ → Option (ℕ × List ℕ)
two_bytes key = some (5, get_or key 0 0 ∷ get_or key 0 0 ∷ [])

abbrev sevens : List ℕ
sevens = replicate 28 7

abbrev first_byte : List ℕ → List ℕ
first_byte bs = replicate 28 (get_or bs 0 0)

fetch_blob_lem_example :
    (d : List ℕ) × (e : List ℕ) × (req_cmd_get_blob (at_once two_bytes) sevens []
      ≡ (some (blob_resp (7 ∷ 7 ∷ [])), d))
    × (read_cmd_get_resp_blob (at_once two_bytes) first_byte true true 3 sevens d
        ≡ (some (7 ∷ 7 ∷ []), e))
    × (e ≡ [])
fetch_blob_lem_example =
    fetch_blob_lem (at_once two_bytes) (λ c bs. c ≡ bs) two_bytes (at_once-Answers two_bytes)
      first_byte [] sevens 5 (7 ∷ 7 ∷ []) refl (omega arith) refl refl refl

zeros : ℕ → List ℕ
zeros zero = []
zeros (suc n) = 0 ∷ zeros n

length-zeros : (n : ℕ) → length (zeros n) ≡ n
unfolding zeros
length-zeros zero = refl
length-zeros (suc n) = ap suc (length-zeros n)

abbrev large_blob : List ℕ → Option (ℕ × List ℕ)
large_blob key = some (0, zeros max_blob_data_size)

largest_blob_refused_example : (req_cmd_get_blob (at_once large_blob) sevens []).0 ≡ none
largest_blob_refused_example =
    largest_blob_refused (at_once large_blob) (λ c bs. c ≡ bs) large_blob
      (at_once-Answers large_blob) [] sevens 0 (zeros max_blob_data_size) refl
      (length-zeros max_blob_data_size) refl refl
