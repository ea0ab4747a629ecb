-- ===== src/Glacier/Directory.antt =====
-- Which files of the bucket directory `evr_walk_buckets` of src/glacier.c takes for buckets, and what
-- the check of a blob's row says in `evr_glacier_blob_check_status`.
use everarch.Prelude.{
  ℕ, ◌+◌, ◌*◌, Bool, ◌&&◌, Option, none, some, List, [], ◌∷◌, if◌then◌else◌, ◌==◌,
}
use everarch.Errors.{Status, ok, end, glacier_index_db_corrupt}
use everarch.Keys.Scan.{hex_value}
use everarch.Keys.TinySet.{ref_eq}

-- `strcmp(end, ".evb") != 0`
abbrev pub has_bucket_ext : List ℕ → Bool
unfolding ref_eq
has_bucket_ext rest = ref_eq rest (b'.' ∷ b'e' ∷ b'v' ∷ b'b' ∷ [])

-- The digits in front of the extension; `sscanf` finds no number where there are none. `seen` is the
-- number read so far; a name has at most 16 digits, so that it fits an unsigned long.
abbrev pub index_at : Option ℕ → List ℕ → Option ℕ
unfolding has_bucket_ext
index_at seen rest = if has_bucket_ext rest then seen else none

abbrev pub seen_digit : Option ℕ → ℕ → ℕ
seen_digit none d = d
seen_digit (some v) d = v * 16 + d

unfoldable pub bucket_index_of : Option ℕ → List ℕ → Option ℕ
unfolding index_at
bucket_index_of seen [] = none
bucket_index_of seen (c ∷ cs) = elim (hex_value c) [
  | none ↦ index_at seen (c ∷ cs)
  | some d ↦ bucket_index_of (some (seen_digit seen d)) cs
]

abbrev pub with_index : Option ℕ → List ℕ → List ℕ
with_index none is = is
with_index (some i) is = i ∷ is

-- the indices that are visited, in the order of the directory's entries
unfoldable pub walk_buckets : List (List ℕ) → List ℕ
unfolding bucket_index_of
walk_buckets [] = []
walk_buckets (name ∷ names) = with_index (bucket_index_of none name) (walk_buckets names)

-- what the row says, and what a lookup by its key then found
unfoldable pub blob_check_status : ℕ → ℕ → Bool → ℕ → ℕ → Status × Status
blob_check_status row_flags row_size found flags blob_size =
    if found && flags == row_flags && blob_size == row_size
    then (ok, ok)
    else (end, glacier_index_db_corrupt)
