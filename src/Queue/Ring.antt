-- ===== src/Queue/Ring.antt =====
-- Walking round the ring of src/queue.c, and what a write to one of its slots changes.
use everarch.Prelude.{
  ℕ, zero, suc, ◌+◌, ◌%◌, ◌^◌, ◌≤◌, ◌<◌, ◌≡◌, ◌≢◌, ◌⊎◌, inl, inr, refl, sym, ap, ◌∙◌, List, [], ◌∷◌,
  ◌++◌, arith, length, set, get_or, Bool-cases, ◌==◌, ==_iff, ==_ne, if◌then◌else◌,
}
use native.Mathlib.Nat.{mod-eq_of_lt, mod_self}
use everarch.Prelude.Mask.{bit_and-mask}
use everarch.Queue.{next_i}

-- the slot behind `i`, said without bits
abbrev pub step : ℕ → ℕ → ℕ
step n i = if suc i == n then 0 else suc i

pub step_cases : (n i : ℕ) → ((suc i ≡ n) × (step n i ≡ 0)) ⊎ ((suc i ≢ n) × (step n i ≡ suc i))
step_cases n i = elim (Bool-cases (suc i == n)) [
  | inl h ↦ inl ((==_iff (suc i) n).0 h, ap (λ b. if b then 0 else suc i) h)
  | inr h ↦ inr (==_ne (suc i) n h, ap (λ b. if b then 0 else suc i) h)
]

-- The mask of the source steps round the ring.
pub next_i-step : (k i : ℕ) → i < 2 ^ k → next_i (2 ^ k) i ≡ step (2 ^ k) i
next_i-step k i h = bit_and-mask (i + 1) k ∙ elim (step_cases (2 ^ k) i) [
  | inl (e, s) ↦
      ap (λ (t : ℕ). t % 2 ^ k) {x = i + 1} {y = 2 ^ k} (omega (arith, e))
      ∙ mod_self (2 ^ k)
      ∙ sym s
  | inr (ne, s) ↦ mod-eq_of_lt {n = i + 1} {m = 2 ^ k} (omega (arith, h, ne)) ∙ omega arith ∙ sym s
]

pub step_lt : (n i : ℕ) → i < n → step n i < n
step_lt n i h = elim (step_cases n i) [
  | inl (e, s) ↦ omega (arith, e, s, h)
  | inr (ne, s) ↦ omega (arith, ne, s, h)
]

-- The slots `i` and on for `count` end in front of `w`.
abbrev pub IsBefore : ℕ → ℕ → ℕ → ℕ → Type 0
IsBefore n w i count = (i + count ≤ w) ⊎ ((w < i) × (i + count ≤ w + n))

IsBefore-step :
    (n w i count : ℕ) → i < n → w < n → IsBefore n w i (suc count) → IsBefore n w (step n i) count
IsBefore-step n w i count hi hw (inl h) = elim (step_cases n i) [
  | inl (e, s) ↦ absurd (omega (arith, e, h, hw))
  | inr (ne, s) ↦ inl (omega (arith, s, h))
]
IsBefore-step n w i count hi hw (inr (lt, h)) = elim (step_cases n i) [
  | inl (e, s) ↦ inl (omega (arith, e, s, h))
  | inr (ne, s) ↦ inr (omega (arith, s, lt), omega (arith, s, h))
]

IsBefore-ne : (n w i count : ℕ) → IsBefore n w i (suc count) → i ≢ w
IsBefore-ne n w i count (inl h) e = omega (arith, h, e)
IsBefore-ne n w i count (inr (lt, h)) e = omega (arith, lt, e)

-- `count` slots from `i` on end at `w`.
abbrev pub EndsAt : ℕ → ℕ → ℕ → ℕ → Type 0
EndsAt n w i count = (i + count ≡ w) ⊎ (i + count ≡ w + n)

pub EndsAt-step :
    (n w i count : ℕ) → i < n → w < n → EndsAt n w i (suc count) → EndsAt n w (step n i) count
EndsAt-step n w i count hi hw (inl h) = elim (step_cases n i) [
  | inl (e, s) ↦ absurd (omega (arith, e, h, hw))
  | inr (ne, s) ↦ inl (omega (arith, s, h))
]
EndsAt-step n w i count hi hw (inr h) = elim (step_cases n i) [
  | inl (e, s) ↦ inl (omega (arith, e, s, h))
  | inr (ne, s) ↦ inr (omega (arith, s, h))
]

pub EndsAt-here : (n w i : ℕ) → i < n → EndsAt n w i 0 → i ≡ w
EndsAt-here n w i hi (inl h) = omega (arith, h)
EndsAt-here n w i hi (inr h) = absurd (omega (arith, h, hi))

module _ {ℓ} {A : Type ℓ} where
  pub get_or-set : (xs : List A) (i : ℕ) (e d : A) → i < length xs → get_or (set xs i e) i d ≡ e
  get_or-set [] i e d h = absurd (omega arith)
  get_or-set (x ∷ xs) zero e d h = refl
  get_or-set (x ∷ xs) (suc i) e d h = get_or-set xs i e d (omega arith)

  get_or-set_other :
      (xs : List A) (i j : ℕ) (e d : A) → i ≢ j → get_or (set xs j e) i d ≡ get_or xs i d
  get_or-set_other [] i j e d h = refl
  get_or-set_other (x ∷ xs) zero zero e d h = absurd (h refl)
  get_or-set_other (x ∷ xs) zero (suc j) e d h = refl
  get_or-set_other (x ∷ xs) (suc i) zero e d h = refl
  get_or-set_other (x ∷ xs) (suc i) (suc j) e d h = get_or-set_other xs i j e d (λ q. h (ap suc q))

  -- the entries of `count` slots, from `i` on round a ring of `n`
  abbrev pub window : A → ℕ → List A → ℕ → ℕ → List A
  window d n xs zero i = []
  window d n xs (suc count) i = get_or xs i d ∷ window d n xs count (step n i)

  -- A write outside the slots of a window leaves it alone.
  pub window-set :
      (d e : A) (n w : ℕ) (xs : List A) (count i : ℕ)
      → i < n
      → w < n
      → IsBefore n w i count
      → window d n (set xs w e) count i ≡ window d n xs count i
  window-set d e n w xs zero i hi hw h = refl
  window-set d e n w xs (suc count) i hi hw h =
      ap (λ a. a ∷ window d n (set xs w e) count (step n i))
        (get_or-set_other xs i w e d (IsBefore-ne n w i count h))
      ∙ ap (λ t. get_or xs i d ∷ t)
          (window-set d e n w xs count (step n i) (step_lt n i hi) hw
            (IsBefore-step n w i count hi hw h))

  -- A window grows by the slot behind it.
  pub window_snoc :
      (d : A) (n w : ℕ) (xs : List A) (count i : ℕ)
      → i < n
      → w < n
      → EndsAt n w i count
      → window d n xs (suc count) i ≡ window d n xs count i ++ (get_or xs w d ∷ [])
  window_snoc d n w xs zero i hi hw h = ap (λ k. get_or xs k d ∷ []) (EndsAt-here n w i hi h)
  window_snoc d n w xs (suc count) i hi hw h =
      ap (λ t. get_or xs i d ∷ t)
        (window_snoc d n w xs count (step n i) (step_lt n i hi) hw
          (EndsAt-step n w i count hi hw h))
