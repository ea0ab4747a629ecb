-- ===== src/Keys/ClaimRef.antt =====
-- Claim refs: a blob ref with the index of a claim in it.
use everarch.Prelude.{
  ℕ, ◌+◌, ◌*◌, ◌%◌, ◌<◌, ◌≡◌, refl, sym, ap, ◌∙◌, some, List, [], ◌∷◌, ◌++◌, arith, length, All,
  take, drop, ==_iff, length-append, length-take, take-append, drop-append, get_or, get_or-drop,
  ap₂, append-nil,
}
use everarch.Errors.{Status, ok}
use everarch.Bytes.{IsByte, push_be, u16}
use everarch.Bytes.Codec.{pull_n-append, pull_be-push_be_zero}
use everarch.Keys.{
  blob_ref_size, fmt_blob_ref, fmt_hex4, parse_blob_ref, build_claim_ref, split_claim_ref,
  fmt_claim_ref, parse_claim_ref, parse_claim_index,
}
use everarch.Keys.Hex.{scan_hex-fmt_hex4}
use everarch.Keys.BlobRef.{parse-fmt_blob_ref, length-parse_blob_ref, length-fmt_bytes}

-- `evr_split_claim_ref` gives back the blob ref and the index that `evr_build_claim_ref` was
-- given, the index cut to 16 bits.
split-build_claim_ref :
    (bref : List ℕ) (claim : ℕ)
    → length bref ≡ blob_ref_size
    → split_claim_ref (build_claim_ref bref claim) ≡ some (bref, claim % u16)
unfolding split_claim_ref build_claim_ref
split-build_claim_ref bref claim h =
    rw (pull_n-append bref (push_be 2 claim) blob_ref_size (sym h))
      (rw (sym (append-nil (push_be 2 claim)), pull_be-push_be_zero 2 claim []))

index_of_build :
    (bref : List ℕ) (claim : ℕ)
    → length bref ≡ blob_ref_size
    → claim < u16
    → get_or (build_claim_ref bref claim) 28 0 * 256 + get_or (build_claim_ref bref claim) 29 0
      ≡ claim
unfolding build_claim_ref push_be
index_of_build bref claim h hc =
    rw
      (
        get_or-drop 28 0 28 (bref ++ push_be 2 claim) 0 refl,
        get_or-drop 28 1 29 (bref ++ push_be 2 claim) 0 refl,
        drop-append 28 bref (push_be 2 claim) (sym h),
      )
      (omega arith)

-- What `evr_fmt_claim_ref` prints for a ref built from a blob ref and an index.
pub fmt-build_claim_ref :
    (bref : List ℕ) (claim : ℕ)
    → length bref ≡ blob_ref_size
    → claim < u16
    → fmt_claim_ref (build_claim_ref bref claim) ≡ fmt_blob_ref bref ++ (b'-' ∷ fmt_hex4 claim)
unfolding fmt_claim_ref
fmt-build_claim_ref bref claim h hc =
    ap₂ (λ (r : List ℕ) (n : ℕ). fmt_blob_ref r ++ (b'-' ∷ fmt_hex4 n))
      (unfold build_claim_ref in take-append 28 bref (push_be 2 claim) (sym h))
      (index_of_build bref claim h hc)

length-fmt_blob_ref : (ref : List ℕ) → length ref ≡ blob_ref_size → length (fmt_blob_ref ref) ≡ 65
unfolding fmt_blob_ref
length-fmt_blob_ref ref h = omega (arith, length-fmt_bytes ref)

parse_claim_index_lem :
    (cref : List ℕ) (claim : ℕ)
    → claim < u16
    → parse_claim_index cref (b'-' ∷ fmt_hex4 claim) ≡ (ok, take 28 cref ++ push_be 2 claim)
parse_claim_index_lem cref claim hc = rw (scan_hex-fmt_hex4 claim hc, parse_claim_index)

-- Whatever 65 characters stand in front of a dash and four hexadecimal digits, `evr_parse_claim_ref`
-- returns `ok`: the index is the number that the digits stand for, and the blob ref is whatever
-- `evr_parse_blob_ref` left in its 28 cells, also when it refused those characters.
pub parse_claim_ref_accepts :
    (cref front : List ℕ) (claim : ℕ)
    → length cref ≡ 30
    → length front ≡ 65
    → claim < u16
    → parse_claim_ref cref (front ++ (b'-' ∷ fmt_hex4 claim))
      ≡ (ok, (parse_blob_ref (take blob_ref_size cref) front).1 ++ push_be 2 claim)
unfolding parse_claim_ref
parse_claim_ref_accepts cref front claim hl h hc =
    let tail : List ℕ = b'-' ∷ fmt_hex4 claim in
    let key : List ℕ = (parse_blob_ref (take 28 cref) front).1 in
    let key_length : length key ≡ 28 =
      length-parse_blob_ref (take 28 cref) front ∙ length-take 28 cref ∙ omega arith in
    let len : length (front ++ tail) ≡ 70 = length-append front tail ∙ omega arith in
    rw ((==_iff _ _).1 len, take-append 65 front tail (sym h), drop-append 65 front tail (sym h))
      (parse_claim_index_lem (key ++ drop 28 cref) claim hc
        ∙ ap (λ (k : List ℕ). (ok, k ++ push_be 2 claim))
            (take-append 28 key (drop 28 cref) (sym key_length)))

-- A claim ref built from 28 bytes and an index below 2 ^ 16 is printed to a string that is parsed
-- back to it.
pub parse-fmt_claim_ref :
    (cref bref : List ℕ) (claim : ℕ)
    → length cref ≡ 30
    → length bref ≡ blob_ref_size
    → All IsByte bref
    → claim < u16
    → parse_claim_ref cref (fmt_claim_ref (build_claim_ref bref claim))
      ≡ (ok, build_claim_ref bref claim)
parse-fmt_claim_ref cref bref claim hl h v hc =
    ap (parse_claim_ref cref) (fmt-build_claim_ref bref claim h hc)
    ∙ parse_claim_ref_accepts cref (fmt_blob_ref bref) claim hl (length-fmt_blob_ref bref h) hc
    ∙ ap (λ (r : Status × List ℕ). (ok, r.1 ++ push_be 2 claim))
        (parse-fmt_blob_ref (take 28 cref) bref (length-take 28 cref ∙ omega arith) h v)
    ∙ unfold build_claim_ref in refl
