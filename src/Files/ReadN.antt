-- ===== src/Files/ReadN.antt =====
-- `read_n` of src/files.c returns exactly the bytes asked for, however the reads are cut.
use everarch.Prelude.{
  ℕ, zero, suc, ◌-◌, ◌≤◌, ◌<◌, ◌≡◌, refl, sym, ◌∙◌, min, List, [], ◌∷◌, ◌++◌, append-nil,
  append_assoc, arith, length, take, drop, length-append, length-take, take-append-drop,
  take-append_ge, drop-append_ge,
}
use everarch.Errors.{Status, ok, error, end}
use everarch.Files.{
  Grant, give, fail, broken_pipe, Source, ReadResult, failed, got, read, SideEffect, Read,
  read_n_loop, read_n, read_n_round, read_n_round, read_grant,
}

-- No call of the schedule fails.
abbrev pub Flows : List Grant → Type 0
Flows [] = Unit {0}
Flows (give g ∷ gs) = Flows gs
Flows (_ ∷ gs) = ⊥

-- A read that fails stops a schedule from flowing; any other takes a front of the bytes that is
-- no longer than asked for, and is empty only at the end.
abbrev pub ReadCase : List ℕ → List Grant → ℕ → ReadResult × Source → Type 0
ReadCase bytes gs count (failed, g) = Flows gs → ⊥
ReadCase bytes gs count (got bs, g) =
    (bytes ≡ bs ++ g.bytes)
    × (length bs ≤ count)
    × (bs ≡ [] → bytes ≡ [])
    × (Flows gs → Flows g.grants)

take_empty : (n : ℕ) (bs : List ℕ) → 0 < n → take n bs ≡ [] → bs ≡ []
take_empty zero bs h e = absurd (omega arith)
take_empty (suc n) [] h e = refl
take_empty (suc n) (b ∷ bs) h e = cc

pub read_grant_case :
    (bytes : List ℕ) (count : ℕ) (gs : List Grant)
    → 0 < count
    → ReadCase bytes gs count (read_grant bytes count gs)
read_grant_case bytes count [] h = (
  sym (take-append-drop count bytes),
  rw length-take (omega arith),
  take_empty count bytes h,
  λ x. x,
)
read_grant_case bytes zero (give g ∷ gs) h = absurd (omega arith)
read_grant_case bytes (suc count) (give g ∷ gs) h =
    let n = suc (min count g) in
    (
      sym (take-append-drop n bytes),
      rw length-take (omega arith),
      take_empty n bytes (omega arith),
      λ x. x,
    )
read_grant_case bytes count (fail ∷ gs) h = λ x. x
read_grant_case bytes count (broken_pipe ∷ gs) h = λ x. x

-- How `read_n` may end, when it has `n` bytes to read from `bytes` behind what it read before.
abbrev pub Ends :
    {C : Type 0} (update : C → List ℕ → C)
    → List ℕ
    → List Grant
    → ℕ
    → List ℕ
    → C
    → Read C
    → Status
    → Type 0
Ends update bytes gs n buffer c r ok =
    (n ≤ length bytes)
    × (r.buffer ≡ buffer ++ take n bytes)
    × (r.ctx ≡ update c (take n bytes))
    × (r.source.bytes ≡ drop n bytes)
    × (Flows gs → Flows r.source.grants)
Ends update bytes gs n buffer c r end =
    (length bytes < n)
    × (r.buffer ≡ buffer ++ bytes)
    × (r.ctx ≡ update c bytes)
    × (r.source.bytes ≡ [])
    × (Flows gs → Flows r.source.grants)
Ends update bytes gs n buffer c r error = Flows gs → ⊥
Ends update bytes gs n buffer c r _ = ⊥

abbrev pub ReadSpec :
    {C : Type 0} (update : C → List ℕ → C) → List ℕ → List Grant → ℕ → List ℕ → C → Read C → Type 0
ReadSpec update bytes gs n buffer c r = Ends update bytes gs n buffer c r r.status

module _ {C : Type 0} (update : C → List ℕ → C)
    (update-append : (c : C) (xs ys : List ℕ) → update (update c xs) ys ≡ update c (xs ++ ys)) where
  -- A front that was read and the rest that a further loop reads make up the whole.
  glue :
      (s : Status) (xs ys : List ℕ) (gs gs' : List Grant) (n : ℕ) (buffer : List ℕ) (c : C)
      (r : Read C)
      → length xs ≤ n
      → (Flows gs → Flows gs')
      → Ends update ys gs' (n - length xs) (buffer ++ xs) (update c xs) r s
      → Ends update (xs ++ ys) gs n buffer c r s
  glue ok xs ys gs gs' n buffer c r h fl (fits, b, d, rest, g) = (
    rw length-append (omega arith),
    b ∙ rw (take-append_ge n xs ys h, append_assoc),
    d ∙ rw (take-append_ge n xs ys h, update-append),
    rest ∙ sym (drop-append_ge n xs ys h),
    λ x. g (fl x),
  )
  glue end xs ys gs gs' n buffer c r h fl (short, b, d, rest, g) = (
    rw length-append (omega arith),
    b ∙ append_assoc buffer xs ys,
    d ∙ update-append c xs ys,
    rest,
    λ x. g (fl x),
  )
  glue error xs ys gs gs' n buffer c r h fl e = λ x. e (fl x)
  glue _ xs ys gs gs' n buffer c r h fl e = e

module _ {C : Type 0} (se : SideEffect C) (update : C → List ℕ → C)
    (se_ok : (c : C) (bs : List ℕ) → se c bs ≡ (ok, update c bs))
    (update-nil : (c : C) → update c [] ≡ c)
    (update-append : (c : C) (xs ys : List ℕ) → update (update c xs) ys ≡ update c (xs ++ ys)) where
  -- One round, if the loop behind it keeps what it promises.
  read_n_round_lem :
      (recur : Source → ℕ → List ℕ → C → Read C) (bytes : List ℕ) (gs : List Grant) (n : ℕ)
      (buffer : List ℕ) (c : C)
      → ((f : Source) (m : ℕ) (b : List ℕ) (d : C)
          → m < n
          → ReadSpec update f.bytes f.grants m b d (recur f m b d))
      → 0 < n
      → (res : ReadResult × Source) → ReadCase bytes gs n res
      → ReadSpec update bytes gs n buffer c (read_n_round se recur n buffer c res)
  read_n_round_lem recur bytes gs n buffer c ih h (failed, f) k = k
  read_n_round_lem recur bytes gs n buffer c ih h (got [], f) (e, _, stop, g) =
      let none_left : bytes ≡ [] = stop refl in
      (
        rw none_left h,
        rw none_left (sym (append-nil buffer)),
        rw none_left (sym (update-nil c)),
        sym e ∙ none_left,
        g,
      )
  read_n_round_lem recur bytes gs n buffer c ih h (got (b ∷ bs), f) (e, le, _, g) =
      let m = n - length (b ∷ bs) in
      let r = recur f m (buffer ++ (b ∷ bs)) (update c (b ∷ bs)) in
      rw (se_ok c (b ∷ bs), e)
        (glue update update-append r.status (b ∷ bs) f.bytes gs f.grants n buffer c r le g
          (ih f m (buffer ++ (b ∷ bs)) (update c (b ∷ bs)) (omega arith)))

  read_n_loop_lem :
      (fuel : ℕ) (f : Source) (n : ℕ) (buffer : List ℕ) (c : C)
      → n ≤ fuel
      → ReadSpec update f.bytes f.grants n buffer c (read_n_loop se fuel f n buffer c)
  unfolding read_n_loop read
  read_n_loop_lem zero f zero buffer c h =
      (omega arith, sym (append-nil buffer), sym (update-nil c), refl, λ x. x)
  read_n_loop_lem zero f (suc n) buffer c h = absurd (omega arith)
  read_n_loop_lem (suc fuel) f zero buffer c h =
      (omega arith, sym (append-nil buffer), sym (update-nil c), refl, λ x. x)
  read_n_loop_lem (suc fuel) f (suc n) buffer c h =
      read_n_round_lem (read_n_loop se fuel) f.bytes f.grants (suc n) buffer c
        (λ g m b d lt. read_n_loop_lem fuel g m b d (omega arith)) (omega arith)
        (read_grant f.bytes (suc n) f.grants)
        (read_grant_case f.bytes (suc n) f.grants (omega arith))

  -- However the reads are cut, and whatever calls fail, `read_n` ends in one of three ways. It
  -- returns `ok` with exactly the next n bytes in the buffer and shown to the side effect, and the
  -- file stands behind them. It returns `end` when fewer than n bytes were left: those are in the
  -- buffer. It returns `error` only if a call of the schedule fails. The side effect must succeed
  -- and may only depend on the bytes in order, not on how they are cut.
  pub read_n_exact :
      (f : Source) (n : ℕ) (c : C) → ReadSpec update f.bytes f.grants n [] c (read_n se f n c)
  unfolding read_n
  read_n_exact f n c = read_n_loop_lem n f n [] c (omega arith)
