-- ===== src/Keys/BlobRef.antt =====
-- Formatting and parsing of blob refs.
use everarch.Prelude.{
  ℕ, suc, ◌*◌, ◌≡◌, refl, ap, ◌∙◌, true, inl, inr, List, [], ◌∷◌, arith, ◌==◌, length, All, drop,
  Option-cases, Bool-cases, sym, subst, ==_iff,
}
use everarch.Errors.{Status, ok}
use everarch.Bytes.{IsByte}
use everarch.Keys.{
  blob_ref_size, blob_ref_str_prefix, has_prefix, fmt_bytes, fmt_blob_ref, parse_pairs,
  parse_blob_ref, scan_byte,
}
use everarch.Keys.Hex.{scan_byte-fmt_hex2, scan_byte-lt}

pub length-fmt_bytes : (bs : List ℕ) → length (fmt_bytes bs) ≡ 2 * length bs
unfolding fmt_bytes
length-fmt_bytes [] = refl
length-fmt_bytes (b ∷ bs) = omega (arith, length-fmt_bytes bs)

pub parse_pairs-fmt_bytes :
    (key bs : List ℕ)
    → length key ≡ length bs
    → All IsByte bs
    → parse_pairs key (fmt_bytes bs) ≡ (ok, bs)
unfolding parse_pairs fmt_bytes
parse_pairs-fmt_bytes [] [] h v = refl
parse_pairs-fmt_bytes [] (b ∷ bs) h v = absurd (omega arith)
parse_pairs-fmt_bytes (k ∷ ks) [] h v = absurd (omega arith)
parse_pairs-fmt_bytes (k ∷ ks) (b ∷ bs) h (vb, vbs) =
    rw (scan_byte-fmt_hex2 b vb, parse_pairs-fmt_bytes ks bs (omega arith) vbs)

-- A formatted blob ref is parsed back, whatever the key's cells held before.
pub parse-fmt_blob_ref :
    (key ref : List ℕ)
    → length key ≡ blob_ref_size
    → length ref ≡ blob_ref_size
    → All IsByte ref
    → parse_blob_ref key (fmt_blob_ref ref) ≡ (ok, ref)
unfolding parse_blob_ref fmt_blob_ref
parse-fmt_blob_ref key ref hk hr v =
    rw ((==_iff _ _).1 (length-fmt_bytes ref ∙ ap (λ (n : ℕ). 2 * n) hr))
      (parse_pairs-fmt_bytes key ref (omega arith) v)

-- Whatever the string, the key keeps its size, and what was accepted is made of bytes.
parse_pairs_sound :
    (key p : List ℕ)
    → (length (parse_pairs key p).1 ≡ length key)
      × ((parse_pairs key p).0 ≡ ok → All IsByte (parse_pairs key p).1)
unfolding parse_pairs
parse_pairs_sound [] p = (refl, λ e. tt)
parse_pairs_sound (k ∷ ks) [] = (refl, λ e. cc)
parse_pairs_sound (k ∷ ks) (a ∷ []) = (refl, λ e. cc)
parse_pairs_sound (k ∷ ks) (a ∷ b ∷ p) = elim (Option-cases (scan_byte a b)) [
  | inl e ↦ rw e (refl, λ x. cc)
  | inr (v, e) ↦ rw e (
      let (len, bytes) = parse_pairs_sound ks p in
      (ap suc len, λ x. (scan_byte-lt a b v e, bytes x)))
]

-- `evr_parse_blob_ref` accepts no string but one with the prefix and 56 characters behind it, and
-- then the key holds 28 bytes.
pub parse_blob_ref_sound :
    (key s ref : List ℕ)
    → length key ≡ blob_ref_size
    → parse_blob_ref key s ≡ (ok, ref)
    → (has_prefix blob_ref_str_prefix s ≡ true)
      × (length (drop 9 s) ≡ 56)
      × (length ref ≡ blob_ref_size)
      × All IsByte ref
unfolding parse_blob_ref
parse_blob_ref_sound key s ref hk e = elim (Bool-cases (has_prefix blob_ref_str_prefix s)) [
  | inr p ↦ cc (rw p at e)
  | inl p ↦ elim (Bool-cases (length (drop 9 s) == 56)) [
    | inr q ↦ cc (rw (p, q) at e)
    | inl q ↦
        let parsed : parse_pairs key (drop 9 s) ≡ (ok, ref) = rw (p, q) at e in
        let (len, bytes) = parse_pairs_sound key (drop 9 s) in
        (
          p,
          (==_iff _ _).0 q,
          ap (λ (r : Status × List ℕ). length r.1) (sym parsed) ∙ len ∙ hk,
          subst (λ (r : Status × List ℕ). All IsByte r.1) parsed
              (bytes (ap (λ (r : Status × List ℕ). r.0) parsed)),
        )
  ]
]

pub length-parse_blob_ref : (key s : List ℕ) → length (parse_blob_ref key s).1 ≡ length key
unfolding parse_blob_ref
length-parse_blob_ref key s = elim (Bool-cases (has_prefix blob_ref_str_prefix s)) [
  | inr p ↦ rw p
  | inl p ↦ elim (Bool-cases (length (drop 9 s) == 56)) [
    | inr q ↦ rw (p, q)
    | inl q ↦ rw (p, q) (parse_pairs_sound key (drop 9 s)).0
  ]
]
