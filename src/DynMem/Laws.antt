-- ===== src/DynMem/Laws.antt =====
-- What the dynamic arrays of src/dyn-mem.c promise.
use everarch.Prelude.{
  ℕ, zero, suc, ◌+◌, ◌-◌, ◌*◌, ◌/◌, ◌≤◌, ◌<◌, ◌≡◌, ◌⊎◌, inl, inr, refl, sym, ap, ◌∙◌, Bool, true,
  false, Option, none, some, List, ◌++◌, arith, ltb, ltb→lt, ltb→le, if◌then◌else◌, Bool-cases,
  length, take, drop, get_or, length-append, append-nil, drop_all, length-take, length-drop, ◌==◌,
  ==_iff, ==_ne,
}
use everarch.Errors.{ok, error}
use everarch.DynMem.{
  DynamicArray, grow_dynamic_array_at_least, grown_size, append_bytes, write_n_dynamic_array,
  dynamic_array_remove, rtrim_size,
}

-- The used bytes fit into what is allocated.
abbrev pub IsValid : DynamicArray → Type 0
IsValid da = length da.bytes ≤ da.size_allocated

-- A write appends the buffer, to an array that is valid again and no smaller; it fails only when the
-- array must grow and there is no memory.
abbrev pub WriteEnds : Bool → DynamicArray → List ℕ → Option DynamicArray → Type 0
WriteEnds realloc_ok da buf none =
    (realloc_ok ≡ false) × (da.size_allocated < length da.bytes + length buf)
WriteEnds realloc_ok da buf (some r) =
    (r.bytes ≡ da.bytes ++ buf) × IsValid r × (da.size_allocated ≤ r.size_allocated)

module _ (da : DynamicArray) (buf : List ℕ) where
  grown_lem :
      (realloc_ok : Bool)
      → da.size_allocated < length da.bytes + length buf
      → WriteEnds realloc_ok da buf (
          append_bytes buf
            (grow_dynamic_array_at_least realloc_ok (some da) (length da.bytes + length buf)))
  unfolding grow_dynamic_array_at_least
  grown_lem false lt = (refl, lt)
  grown_lem true lt =
      elim (Bool-cases (ltb (da.size_allocated * 3 / 2 + 1) (length da.bytes + length buf))) [
        | inl h ↦
            let e : grown_size da.size_allocated (length da.bytes + length buf)
                ≡ length da.bytes + length buf =
              ap (λ b. if b then length da.bytes + length buf else da.size_allocated * 3 / 2 + 1)
                h in
            (refl, omega (arith, e, length-append da.bytes buf), omega (arith, e, lt))
        | inr h ↦
            let e : grown_size da.size_allocated (length da.bytes + length buf)
                ≡ da.size_allocated * 3 / 2 + 1 =
              ap (λ b. if b then length da.bytes + length buf else da.size_allocated * 3 / 2 + 1)
                h in
            let le = ltb→le _ _ h in
            (refl, omega (arith, e, le, length-append da.bytes buf), omega (arith, e))
      ]

  choose_lem :
      (realloc_ok b : Bool)
      → ltb da.size_allocated (length da.bytes + length buf) ≡ b
      → WriteEnds realloc_ok da buf (
          append_bytes buf (
            if b
            then grow_dynamic_array_at_least realloc_ok (some da) (length da.bytes + length buf)
            else some da))
  choose_lem realloc_ok true h = grown_lem realloc_ok (ltb→lt _ _ h)
  choose_lem realloc_ok false h =
      let le = ltb→le _ _ h in (refl, omega (arith, le, length-append da.bytes buf), omega arith)

  -- `write_n_dynamic_array` appends the buffer to the used bytes. The array is then valid and no
  -- smaller than before. It fails only when the array must grow and there is no memory.
  pub write_n_dynamic_array_lem :
      (realloc_ok : Bool) → WriteEnds realloc_ok da buf (write_n_dynamic_array realloc_ok da buf)
  unfolding write_n_dynamic_array
  write_n_dynamic_array_lem realloc_ok = choose_lem realloc_ok _ refl

-- `dynamic_array_remove` takes exactly the bytes from `offset` on for `size` out, if they are all
-- in use, and the array stays valid; otherwise it returns error and changes nothing.
pub dynamic_array_remove_lem :
    (da : DynamicArray) (offset size : ℕ)
    → IsValid da
    → let (s, r) = dynamic_array_remove da offset size in
      ((offset + size ≤ length da.bytes)
        × (s ≡ ok)
        × IsValid r
        × (r.bytes ≡ take offset da.bytes ++ drop (offset + size) da.bytes))
      ⊎ ((length da.bytes < offset + size) × (s ≡ error) × (r ≡ da))
unfolding dynamic_array_remove
dynamic_array_remove_lem da offset size v =
    elim (Bool-cases (ltb (offset + size) (length da.bytes))) [
      | inl h ↦ rw h (
          inl (
            omega (arith, ltb→lt _ _ h),
            refl,
            omega (
              arith,
              v,
              length-append (take offset da.bytes) (drop (offset + size) da.bytes),
              length-take offset da.bytes,
              length-drop (offset + size) da.bytes,
            ),
            refl,
          ))
      | inr h ↦ elim (Bool-cases (ltb (length da.bytes) (offset + size))) [
        | inl g ↦ rw (h, g) (inr (ltb→lt _ _ g, refl, refl))
        | inr g ↦
            let le = ltb→le _ _ h in
            let ge = ltb→le _ _ g in
            let same : length da.bytes - size ≡ offset = omega (arith, le, ge) in
            rw (h, g)
              (inl (
                ge,
                refl,
                omega (arith, v, length-take (length da.bytes - size) da.bytes),
                ap (λ n. take n da.bytes) same
                    ∙ sym (append-nil (take offset da.bytes))
                    ∙ ap (λ t. take offset da.bytes ++ t)
                        (sym (drop_all (offset + size) da.bytes le)),
              ))
      ]
    ]

-- `k` of `n` bytes are left: all behind them are trimmed, and the last of them is not, or is the
-- byte at the start.
abbrev pub Trimmed : (ℕ → Bool) → List ℕ → ℕ → ℕ → Type 0
Trimmed istrimmed bytes n k =
    (k ≤ n)
    × ((i : ℕ) → k ≤ i → i < n → istrimmed (get_or bytes i 0) ≡ true)
    × ((k ≤ 1) ⊎ (istrimmed (get_or bytes (k - 1) 0) ≡ false))
    × (0 < n → 0 < k)

Trimmed-suc :
    (t : ℕ → Bool) (bytes : List ℕ) (n k : ℕ) (b : Bool)
    → t (get_or bytes (suc n) 0) ≡ b
    → Trimmed t bytes (suc n) k
    → Trimmed t bytes (suc (suc n)) (if b then k else suc (suc n))
Trimmed-suc t bytes n k true h (le, cut, stop, pos) =
    (omega (arith, le), last, stop, λ x. pos (omega arith))
  where
    last : (i : ℕ) → k ≤ i → i < suc (suc n) → t (get_or bytes i 0) ≡ true
    last i a lt = elim (Bool-cases (i == suc n)) [
      | inl q ↦ ap (λ j. t (get_or bytes j 0)) ((==_iff i (suc n)).0 q) ∙ h
      | inr q ↦ let ne = ==_ne i (suc n) q in cut i a (omega (arith, lt, ne))
    ]
Trimmed-suc t bytes n k false h d = (
  omega arith,
  λ i le lt. absurd (omega (arith, le, lt)),
  inr (ap (λ j. t (get_or bytes j 0)) {x = suc (suc n) - 1} {y = suc n} (omega arith) ∙ h),
  λ x. omega arith,
)

-- What `rtrim_dynamic_array` leaves of `n` bytes: it cuts off bytes that are trimmed, and stops at
-- the first byte from the right that is not, or at the start, whose byte it keeps whatever it is.
pub rtrim_size_lem :
    (istrimmed : ℕ → Bool) (bytes : List ℕ) (n : ℕ)
    → Trimmed istrimmed bytes n (rtrim_size istrimmed bytes n)
unfolding rtrim_size
rtrim_size_lem t bytes zero =
    (omega arith, λ i le lt. absurd (omega (arith, lt)), inl (omega arith), λ h. h)
rtrim_size_lem t bytes (suc zero) =
    (omega arith, λ i le lt. absurd (omega (arith, le, lt)), inl (omega arith), λ h. h)
rtrim_size_lem t bytes (suc (suc n)) =
    Trimmed-suc t bytes n (rtrim_size t bytes (suc n)) _ refl (rtrim_size_lem t bytes (suc n))
