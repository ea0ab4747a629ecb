-- ===== src/Keys.antt =====
-- Blob refs and claim refs of src/keys.c and src/keys.h. A C string is the list of its characters
-- without the final NUL, and a buffer is the list of its cells.
pub mod Scan
pub mod Hex
pub mod BlobRef
pub mod ClaimRef
pub mod TinySet
mod Tests
use everarch.Prelude.{
  ℕ, zero, suc, ◌+◌, ◌-◌, ◌*◌, ◌/◌, ◌%◌, Bool, true, false, ◌&&◌, Option, none, some, List, [], ◌∷◌,
  ◌++◌, ltb, if◌then◌else◌, ◌==◌, length, take, drop, replicate, set, get_or,
}
use everarch.Errors.{Status, ok, error, exists}
use everarch.Bytes.{push_be, pull_be, pull_n, ◌>>=◌}
use everarch.Keys.Scan.{scan_hex}

-- `evr_blob_ref_size`
abbrev pub blob_ref_size : ℕ
blob_ref_size = 28

-- `evr_blob_ref_str_prefix`, "sha3-224-"
abbrev pub blob_ref_str_prefix : List ℕ
blob_ref_str_prefix = b's' ∷ b'h' ∷ b'a' ∷ b'3' ∷ b'-' ∷ b'2' ∷ b'2' ∷ b'4' ∷ b'-' ∷ []

abbrev pub hex_digit : ℕ → ℕ
hex_digit d = if ltb d 10 then 48 + d else 87 + d

-- `sprintf(p, "%02x", b)` for a byte
abbrev pub fmt_hex2 : ℕ → List ℕ
fmt_hex2 b = hex_digit (b / 16) ∷ hex_digit (b % 16) ∷ []

-- `sprintf(s, "%04x", claim)` for a number below 2 ^ 16
abbrev pub fmt_hex4 : ℕ → List ℕ
fmt_hex4 n =
    hex_digit (n / 4096)
    ∷ hex_digit (n / 256 % 16)
    ∷ hex_digit (n / 16 % 16)
    ∷ hex_digit (n % 16)
    ∷ []

-- the loop of `evr_fmt_blob_ref` and of `evr_fmt_auth_token`
unfoldable pub fmt_bytes : List ℕ → List ℕ
fmt_bytes [] = []
fmt_bytes (b ∷ bs) = fmt_hex2 b ++ fmt_bytes bs

unfoldable pub fmt_blob_ref : List ℕ → List ℕ
fmt_blob_ref key = blob_ref_str_prefix ++ fmt_bytes key

-- `strncmp(prefix, s, strlen(prefix)) == 0`
abbrev pub has_prefix : List ℕ → List ℕ → Bool
has_prefix [] s = true
has_prefix (c ∷ cs) [] = false
has_prefix (c ∷ cs) (d ∷ ds) = c == d && has_prefix cs ds

abbrev pub byte_or_none : Option ℕ → Option ℕ
byte_or_none none = none
byte_or_none (some v) = if ltb 255 v then none else some v

-- One pair of characters of the loop of `evr_parse_blob_ref`: the value, if it is a byte.
abbrev pub scan_byte : ℕ → ℕ → Option ℕ
scan_byte a b = byte_or_none (scan_hex 2 (a ∷ b ∷ []))

abbrev pub parse_pairs_next : Option ℕ → ℕ → List ℕ → Status × List ℕ → Status × List ℕ
parse_pairs_next none k ks rest = (error, k ∷ ks)
parse_pairs_next (some v) k ks (s, done) = (s, v ∷ done)

-- The loop of `evr_parse_blob_ref` over the cells of the key: it stops at the first pair that is no
-- byte, and leaves the cells from there on as they were.
unfoldable pub parse_pairs : List ℕ → List ℕ → Status × List ℕ
parse_pairs [] p = (ok, [])
parse_pairs (k ∷ ks) (a ∷ b ∷ p) = parse_pairs_next (scan_byte a b) k ks (parse_pairs ks p)
parse_pairs (k ∷ ks) _ = (error, k ∷ ks)

unfoldable pub parse_blob_ref : List ℕ → List ℕ → Status × List ℕ
parse_blob_ref key fmt_key =
    if has_prefix blob_ref_str_prefix fmt_key
    then (let p = drop 9 fmt_key in
        if length p == 2 * blob_ref_size then parse_pairs key p else (error, key))
    else (error, key)

-- `evr_build_claim_ref`
unfoldable pub build_claim_ref : List ℕ → ℕ → List ℕ
build_claim_ref bref claim = bref ++ push_be 2 claim

-- `evr_split_claim_ref`
unfoldable pub split_claim_ref : List ℕ → Option (List ℕ × ℕ)
split_claim_ref cref = do
  (bref, at_claim) ← pull_n blob_ref_size cref
  (claim, rest) ← pull_be 2 0 at_claim
  some (bref, claim)

-- `evr_fmt_claim_ref`; the index is the big endian number in the last two cells.
unfoldable pub fmt_claim_ref : List ℕ → List ℕ
unfolding fmt_blob_ref
fmt_claim_ref cref =
    fmt_blob_ref (take blob_ref_size cref)
    ++ (b'-' ∷ fmt_hex4 (get_or cref 28 0 * 256 + get_or cref 29 0))

-- what `evr_parse_claim_ref` does behind its call of `evr_parse_blob_ref`
abbrev pub parse_claim_index : List ℕ → List ℕ → Status × List ℕ
parse_claim_index cref [] = (error, cref)
parse_claim_index cref (c ∷ s) =
    if c == b'-'
    then elim (scan_hex 4 s) [
      | none ↦ (error, cref)
      | some index_ref ↦ (ok, take blob_ref_size cref ++ push_be 2 index_ref)
    ]
    else (error, cref)

-- `evr_parse_claim_ref`: the result of `evr_parse_blob_ref` is dropped, as in the source.
unfoldable pub parse_claim_ref : List ℕ → List ℕ → Status × List ℕ
parse_claim_ref cref fmt_ref =
    if length fmt_ref == 70
    then (let (_, key) = parse_blob_ref (take blob_ref_size cref) (take 65 fmt_ref) in
        parse_claim_index (key ++ drop blob_ref_size cref) (drop 65 fmt_ref))
    else (error, cref)
