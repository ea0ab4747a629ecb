-- ===== src/Glacier/Chunks.antt =====
-- The loop of `evr_glacier_append_blob` over the chunks of a blob writes the blob's bytes.

use everarch.Prelude.{
  ℕ, zero, suc, le_or_ge, ◌-◌, ◌≤◌, ◌≡◌, sym, ap, ap₂, subst, ◌∙◌, inl, inr, min, List, [], ◌∷◌,
  ◌++◌, arith, length, take, drop, All, append-nil, append_assoc, length-append, take_all,
  take-append_le, take-append_ge,
}
use everarch.Glacier.{Glacier, chunk_size, write_current}
use everarch.Glacier.WriteBlob.{write_chunks}
use everarch.Glacier.Frame.{Post, Post-bind, Post-map, At, Extends, Torn-Extends, Extends-shorter}
use everarch.Glacier.Steps.{write_current_lem}

unfoldable pub concat : List (List ℕ) → List ℕ
concat [] = []
concat (c ∷ cs) = c ++ concat cs

-- Every chunk is full, as `evr_chunk_set` allocates them, and they hold the blob's size.
abbrev pub IsChunked : ℕ → List (List ℕ) → Type 0
IsChunked n cs = All (λ c. length c ≡ chunk_size) cs × (n ≤ length (concat cs))

-- the bytes of one chunk and those of the chunks behind it
take-concat :
    (n : ℕ) (c : List ℕ) (cs : List (List ℕ))
    → length c ≡ chunk_size
    → take (min n chunk_size) c ++ take (n - min n chunk_size) (concat cs)
      ≡ take n (concat (c ∷ cs))
unfolding concat
take-concat n c cs e = elim (le_or_ge n chunk_size) [
  | inl le ↦
      let m : min n chunk_size ≡ n = omega (arith, le) in
      let z : n - min n chunk_size ≡ 0 = omega (arith, le) in
      ap₂ (λ x y. take x c ++ take y (concat cs)) m z
      ∙ append-nil (take n c)
      ∙ sym (take-append_le n c (concat cs) (omega (arith, le, e)))
  | inr ge ↦
      let m : min n chunk_size ≡ chunk_size = omega (arith, ge) in
      let z : n - min n chunk_size ≡ n - length c = omega (arith, ge, e) in
      ap₂ (λ x y. take x c ++ take y (concat cs)) m z
      ∙ ap (λ x. x ++ take (n - length c) (concat cs)) (take_all chunk_size c (omega (arith, e)))
      ∙ sym (take-append_ge n c (concat cs) (omega (arith, ge, e)))
]

none_left : (n : ℕ) → suc n ≤ length (concat []) → ⊥
unfolding concat
none_left n le = omega arith

IsChunked-next :
    (n : ℕ) (c : List ℕ) (cs : List (List ℕ))
    → IsChunked (suc n) (c ∷ cs)
    → IsChunked (suc n - min (suc n) chunk_size) cs
unfolding concat
IsChunked-next n c cs ((e, full), le) = (full, omega (arith, le, e, length-append c (concat cs)))

whole :
    (front : List ℕ) (n : ℕ) (c : List ℕ) (cs : List (List ℕ))
    → IsChunked (suc n) (c ∷ cs)
    → front ++ take (min (suc n) chunk_size) c ++ take (suc n - min (suc n) chunk_size) (concat cs)
      ≡ front ++ take (suc n) (concat (c ∷ cs))
whole front n c cs ((e, full), le) =
    append_assoc front (take (min (suc n) chunk_size) c) _
    ∙ ap (λ x. front ++ x) (take-concat (suc n) c cs e)

module _ {Db : Type 0} (i : ℕ) (w0 : Glacier Db) where
  pub write_chunks_lem :
      (n : ℕ) (cs : List (List ℕ)) (front tail : List ℕ) (w : Glacier Db)
      → IsChunked n cs
      → At i front tail w0 w
      → Post
          (λ v. (rest : List ℕ) × At i (front ++ take n (concat cs)) rest w0 v)
          (Extends i front w0)
          (write_chunks n cs w)
  unfolding write_chunks
  write_chunks_lem zero cs front tail w h a =
      (tail, subst (λ f. At i f tail w0 w) (sym (append-nil front)) a)
  write_chunks_lem (suc n) [] front tail w (_, le) a = absurd (none_left n le)
  write_chunks_lem (suc n) (c ∷ cs) front tail w h a =
      Post-bind (At i (front ++ piece) (drop (length piece) tail) w0)
        (λ v. (rest : List ℕ) × At i (front ++ take (suc n) (concat (c ∷ cs))) rest w0 v)
        (Extends i front w0) (write_chunks left cs) (write_current piece w)
        (Post-map (write_current piece w) (write_current_lem i front tail piece w0 w a) (λ v x. x)
          (λ v t. Torn-Extends i front (length piece) tail w0 v t))
        (λ v x.
          Post-map (write_chunks left cs v)
            (write_chunks_lem left cs (front ++ piece) (drop (length piece) tail) v
              (IsChunked-next n c cs h) x)
            (λ u (rest, y). (rest, subst (λ d. At i d rest w0 u) (whole front n c cs h) y))
            (λ u y. Extends-shorter i front piece w0 u y))
    where
      piece : List ℕ
      piece = take (min (suc n) chunk_size) c

      left : ℕ
      left = suc n - min (suc n) chunk_size
