-- ===== src/Queue/Slots.antt =====
-- A ring of `n` slots with a place to write and one to read, as the list that stands between them.
use everarch.Prelude.{
  ℕ, suc, ◌<◌, ◌≡◌, ◌≢◌, inl, inr, refl, sym, ap, subst, ◌∙◌, List, [], ◌∷◌, ◌++◌, arith, length,
  set, get_or, Bool-cases, ◌==◌, ==_iff, ==_ne, length-append, length-set,
}
use everarch.Queue.Ring.{
  step, step_cases, step_lt, IsBefore, EndsAt, EndsAt-step, get_or-set, window, window-set,
  window_snoc,
}

pub full_lem : (n w r c : ℕ) → r < n → w < n → c < n → EndsAt n w r c → step n w ≡ r → suc c ≡ n
full_lem n w r c hr hw hc h e = elim (step_cases n w) [
  | inl (f, s) ↦ elim h [
    | inl a ↦ omega (arith, hr, hw, hc, e, f, s, a)
    | inr a ↦ omega (arith, hr, hw, hc, e, f, s, a)
  ]
  | inr (ne, s) ↦ elim h [
    | inl a ↦ omega (arith, hr, hw, hc, e, s, a)
    | inr a ↦ omega (arith, hr, hw, hc, e, s, a)
  ]
]

pub room_lem : (n w r c : ℕ) → r < n → w < n → c < n → EndsAt n w r c → step n w ≢ r → suc c < n
room_lem n w r c hr hw hc h ne = elim (Bool-cases (suc c == n)) [
  | inr q ↦ let d = ==_ne (suc c) n q in omega (arith, hc, d)
  | inl q ↦
      let e : suc c ≡ n = (==_iff (suc c) n).0 q in
      absurd (
        ne (elim (step_cases n w) [
          | inl (f, s) ↦ elim h [
            | inl a ↦ omega (arith, hr, hw, e, f, s, a)
            | inr a ↦ omega (arith, hr, hw, e, f, s, a)
          ]
          | inr (d, s) ↦ elim h [
            | inl a ↦ omega (arith, hr, hw, e, s, a, d)
            | inr a ↦ omega (arith, hr, hw, e, s, a)
          ]
        ]))
]

pub EndsAt-put :
    (n w r c : ℕ) → r < n → w < n → suc c < n → EndsAt n w r c → EndsAt n (step n w) r (suc c)
EndsAt-put n w r c hr hw hc h = elim (step_cases n w) [
  | inl (f, s) ↦ elim h [
    | inl a ↦ inr (omega (arith, f, s, a))
    | inr a ↦ absurd (omega (arith, hr, hc, f, a))
  ]
  | inr (ne, s) ↦ elim h [ inl a ↦ inl (omega (arith, s, a)) | inr a ↦ inr (omega (arith, s, a)) ]
]

pub EndsAt-IsBefore : (n w r c : ℕ) → r < n → c < n → EndsAt n w r c → IsBefore n w r c
EndsAt-IsBefore n w r c hr hc (inl h) = inl (omega (arith, h))
EndsAt-IsBefore n w r c hr hc (inr h) = inr (omega (arith, hc, h), omega (arith, h))

pub EndsAt-ne : (n w r c : ℕ) → suc c < n → EndsAt n w r (suc c) → w ≢ r
EndsAt-ne n w r c hc (inl h) e = omega (arith, h, e)
EndsAt-ne n w r c hc (inr h) e = omega (arith, h, e, hc)

module _ {ℓ} {A : Type ℓ} (n : ℕ) (d : A) where
  -- The slots from `r` up to `w` hold the list `xs`.
  pub record Slots (xs : List A) (buf : List A) (w r : ℕ) : Type ℓ where
    pub len : length buf ≡ n
    pub reading : r < n
    pub writing : w < n
    pub fits : length xs < n
    pub ends : EndsAt n w r (length xs)
    pub same : window d n buf (length xs) r ≡ xs

  pub put-Slots :
      (xs buf : List A) (w r : ℕ) (e : A)
      → suc (length xs) < n
      → Slots xs buf w r
      → Slots (xs ++ (e ∷ [])) (set buf w e) (step n w) r
  put-Slots xs buf w r e room h = record {
    len = length-set buf w e ∙ h.len;
    reading = h.reading;
    writing = step_lt n w h.writing;
    fits = subst (λ c. c < n) (sym count) room;
    ends =
        subst (EndsAt n (step n w) r) (sym count)
          (EndsAt-put n w r (length xs) h.reading h.writing room h.ends);
    same =
        ap (λ c. window d n (set buf w e) c r) count
        ∙ window_snoc d n w (set buf w e) (length xs) r h.reading h.writing h.ends
        ∙ ap (λ t. t ++ (get_or (set buf w e) w d ∷ []))
            (window-set d e n w buf (length xs) r h.reading h.writing
                (EndsAt-IsBefore n w r (length xs) h.reading h.fits h.ends)
              ∙ h.same)
        ∙ ap (λ a. xs ++ (a ∷ []))
            (get_or-set buf w e d (subst (λ m. w < m) (sym h.len) h.writing));
  }
    where
      count : length (xs ++ (e ∷ [])) ≡ suc (length xs)
      count = omega (arith, length-append xs (e ∷ []))

  pub take-Slots :
      (x : A) (xs buf : List A) (w r : ℕ)
      → Slots (x ∷ xs) buf w r
      → (get_or buf r d ≡ x) × Slots xs buf w (step n r)
  take-Slots x xs buf w r h = (
    cons-head h.same,
    record {
      len = h.len;
      reading = step_lt n r h.reading;
      writing = h.writing;
      fits = omega (arith, h.fits);
      ends = EndsAt-step n w r (length xs) h.reading h.writing h.ends;
      same = cons-tail h.same;
    },
  )
    where
      cons-head : {a b : A} {xs ys : List A} → a ∷ xs ≡ b ∷ ys → a ≡ b
      cons-head e = cc

      cons-tail : {a b : A} {xs ys : List A} → a ∷ xs ≡ b ∷ ys → xs ≡ ys
      cons-tail e = cc

  pub Slots-empty : (xs buf : List A) (w r : ℕ) → Slots xs buf w r → w ≡ r → xs ≡ []
  Slots-empty [] buf w r h e = refl
  Slots-empty (x ∷ xs) buf w r h e = absurd (EndsAt-ne n w r (length xs) h.fits h.ends e)

  -- There is no room for another entry exactly when the place to write would meet the one to read.
  pub Slots-full :
      (xs buf : List A) (w r : ℕ) → Slots xs buf w r → step n w ≡ r → suc (length xs) ≡ n
  Slots-full xs buf w r h = full_lem n w r (length xs) h.reading h.writing h.fits h.ends

  pub Slots-room :
      (xs buf : List A) (w r : ℕ) → Slots xs buf w r → step n w ≢ r → suc (length xs) < n
  Slots-room xs buf w r h = room_lem n w r (length xs) h.reading h.writing h.fits h.ends
