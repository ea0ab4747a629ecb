-- ===== src/Keys/TinySet.antt =====
-- `struct evr_claim_ref_tiny_set` of src/keys.c: a bounded set of claim refs with a table of the
-- first bytes that may occur in it.
pub mod Spec
use everarch.Prelude.{
  ℕ, ◌≤◌, ◌<◌, ◌≡◌, Bool, true, false, ◌&&◌, ◌||◌, List, [], ◌∷◌, ◌++◌, leb, if◌then◌else◌, ◌==◌,
  length, replicate, set, get_or,
}
use everarch.Errors.{Status, ok, error, exists}

-- `memcmp(r1, r2, size) == 0` for buffers of one size
unfoldable pub ref_eq : List ℕ → List ℕ → Bool
ref_eq [] [] = true
ref_eq (a ∷ r) (b ∷ q) = a == b && ref_eq r q
ref_eq _ _ = false

-- `refs` holds the first `refs_used` entries of the array, and `hash_set` its 256 flags.
pub record TinySet : Type 0 where
  pub refs_len : ℕ
  pub refs : List (List ℕ)
  pub hash_set : List Bool

-- `evr_create_claim_ref_tiny_set` and `evr_reset_claim_ref_tiny_set`
unfoldable pub create : ℕ → TinySet
create refs_len = record { refs_len = refs_len; refs = []; hash_set = replicate 256 false }

unfoldable pub reset : TinySet → TinySet
reset s = record s { refs = []; hash_set = replicate 256 false }

-- the loop over the refs in use
unfoldable pub contains : List (List ℕ) → List ℕ → Bool
contains [] ref = false
contains (it ∷ rest) ref = ref_eq ref it || contains rest ref

-- the test for room and the copy of the ref
abbrev pub push_ref : TinySet → List ℕ → Status × TinySet
push_ref s ref =
    if leb s.refs_len (length s.refs)
    then (error, s)
    else (ok, record s { refs = s.refs ++ (ref ∷ []) })

-- `evr_claim_ref_tiny_set_add`; the slot is the first byte of the ref.
unfoldable pub add : TinySet → List ℕ → Status × TinySet
add s ref =
    let slot = get_or ref 0 0 in
    if get_or s.hash_set slot false
    then (if contains s.refs ref then (exists, s) else push_ref s ref)
    else push_ref (record s { hash_set = set s.hash_set slot true }) ref
