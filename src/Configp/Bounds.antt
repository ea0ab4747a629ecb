-- ===== src/Configp/Bounds.antt =====
-- The buffers of `configp_parse_file` are never written past their end.
use everarch.Prelude.{
  ℕ, ◌≤◌, ◌<◌, ◌≡◌, ◌⊎◌, inl, inr, ap, ◌∙◌, Bool-cases, refl, Bool, true, false, Option, none, some,
  List, [], ◌∷◌, ◌++◌, arith, length, length-append, ◌==◌, ==_ne, if◌then◌else◌,
}
use everarch.Bytes.{◌>>=◌}
use everarch.Configp.{
  State, state_whitespace, state_comment, state_key, state_post_key, state_pre_val, state_val,
  Parser, is_inline_whitespace_char, key_size, val_size, Options, push_char, with_key, with_val,
  goto, consumed, consume_arg, end_value, step_in, step, run, initial,
}

-- A result, if there is one, has `P`.
abbrev pub OnSome : {A : Type 0} → (A → Type 0) → Option A → Type 0
OnSome P none = Unit {0}
OnSome P (some a) = P a

pub OnSome-if :
    {A : Type 0} (P : A → Type 0) (b : Bool) (x y : Option A)
    → OnSome P x
    → OnSome P y
    → OnSome P (if b then x else y)
OnSome-if P true x y h g = h
OnSome-if P false x y h g = g

pub OnSome-bind :
    {A B : Type 0} (P : A → Type 0) (Q : B → Type 0) (o : Option A) (f : A → Option B)
    → OnSome P o
    → ((a : A) → P a → OnSome Q (f a))
    → OnSome Q (o >>= f)
OnSome-bind P Q none f h g = tt
OnSome-bind P Q (some a) f h g = g a h

abbrev Fits : ℕ → List ℕ → Type 0
Fits size p = length p ≤ size

push_char-Fits : (size c : ℕ) (p : List ℕ) → Fits size p → OnSome (Fits size) (push_char size c p)
push_char-Fits size c p h = full (length p == size) refl
  where
    full :
        (b : Bool)
        → (length p == size) ≡ b
        → OnSome (Fits size) (if b then none else some (p ++ (c ∷ [])))
    full true e = tt
    full false e =
        let ne = ==_ne (length p) size e in omega (arith, h, ne, length-append p (c ∷ []))

-- What is empty in a state: between two options both buffers are, and the value's is up to its
-- first character.
abbrev pub Empty : {C : Type 0} → State → Parser C → Type 0
Empty state_whitespace p = (p.key ≡ []) × (p.val ≡ [])
Empty state_comment p = (p.key ≡ []) × (p.val ≡ [])
Empty state_val p = Unit {0}
Empty _ p = p.val ≡ []

pub record IsValid {C : Type 0} (p : Parser C) : Type 0 where
  pub key_fits : length p.key ≤ key_size
  pub val_fits : length p.val ≤ val_size
  pub empty : Empty p.state p

module _ {C : Type 0} (options : Options) (parser : ℕ → List ℕ → C → Option C) where
  pub initial-IsValid : (input : C) → IsValid (initial options parser input)
  initial-IsValid input = record {
    key_fits = omega arith;
    val_fits = omega arith;
    empty = (refl, refl);
  }

  abbrev Valid : Option (Parser C) → Type 0
  Valid o = OnSome IsValid o

  with_key-IsValid :
      (p : Parser C) (c : ℕ)
      → IsValid p
      → p.val ≡ []
      → Valid (with_key state_key p (push_char key_size c p.key))
  with_key-IsValid p c v e =
      pushed (push_char key_size c p.key) (push_char-Fits key_size c p.key v.key_fits)
    where
      pushed : (o : Option (List ℕ)) → OnSome (Fits key_size) o → Valid (with_key state_key p o)
      pushed none h = tt
      pushed (some k) h = record { key_fits = h; val_fits = v.val_fits; empty = e }

  with_val-IsValid :
      (p : Parser C) (c : ℕ) → IsValid p → Valid (with_val p (push_char val_size c p.val))
  with_val-IsValid p c v =
      pushed (push_char val_size c p.val) (push_char-Fits val_size c p.val v.val_fits)
    where
      pushed : (o : Option (List ℕ)) → OnSome (Fits val_size) o → Valid (with_val p o)
      pushed none h = tt
      pushed (some k) h = record { key_fits = v.key_fits; val_fits = h; empty = tt }

  -- a change of the state only
  moved :
      (s : State) (p : Parser C)
      → IsValid p
      → Empty s (record p { state = s })
      → IsValid (record p { state = s })
  moved s p v h = record { key_fits = v.key_fits; val_fits = v.val_fits; empty = h }

  end_value-IsValid : (p : Parser C) → Valid (end_value options parser p)
  unfolding end_value
  end_value-IsValid p =
      OnSome-bind (λ k. Unit {0}) IsValid (push_char key_size 0 p.key) _
        (anything (push_char key_size 0 p.key))
        (λ k _.
          OnSome-bind (λ k. Unit {0}) IsValid (push_char val_size 0 p.val) _
            (anything (push_char val_size 0 p.val))
            (λ v _. taken (consume_arg options parser k v p.input)))
    where
      anything : (o : Option (List ℕ)) → OnSome (λ k. Unit {0}) o
      anything none = tt
      anything (some k) = tt

      taken : (o : Option C) → Valid (consumed options parser o)
      taken none = tt
      taken (some input) = record {
        key_fits = omega arith;
        val_fits = omega arith;
        empty = (refl, refl);
      }

  step_in-IsValid :
      (s : State) (p : Parser C) (b : ℕ)
      → p.state ≡ s
      → IsValid p
      → Empty s p
      → Valid (step_in options parser s p b)
  step_in-IsValid state_whitespace p b e v h =
      let pushed = with_key-IsValid p b v h.1 in
      let skipped : Valid (goto state_comment p) = moved state_comment p v h in
      let same : Valid (some p) = v in ground (arith, pushed, skipped, same)
  step_in-IsValid state_comment p b e v h =
      let ended : Valid (goto state_whitespace p) = moved state_whitespace p v h in
      let same : Valid (some p) = v in ground (arith, ended, same)
  step_in-IsValid state_key p b e v h =
      let pushed = with_key-IsValid p b v h in
      let ended : Valid (goto state_post_key p) = moved state_post_key p v h in
      let assigned : Valid (goto state_val p) = moved state_val p v tt in
      ground (arith, pushed, ended, assigned)
  step_in-IsValid state_post_key p b e v h =
      let assigned : Valid (goto state_pre_val p) = moved state_pre_val p v h in
      ground (arith, assigned)
  step_in-IsValid state_pre_val p b e v h =
      let pushed = with_val-IsValid p b v in
      let same : Valid (some p) = v in ground (arith, pushed, same)
  step_in-IsValid state_val p b e v h =
      let pushed = with_val-IsValid p b v in
      let ended = end_value-IsValid p in ground (arith, pushed, ended)

  step-IsValid : (p : Parser C) (b : ℕ) → IsValid p → Valid (step options parser p b)
  unfolding step
  step-IsValid p b v = step_in-IsValid p.state p b refl v v.empty

  run_keeps-IsValid : (p : Parser C) (bs : List ℕ) → IsValid p → Valid (run options parser p bs)
  unfolding run
  run_keeps-IsValid p [] v = v
  run_keeps-IsValid p (b ∷ bs) v =
      OnSome-bind IsValid IsValid (step options parser p b) (λ q. run options parser q bs)
        (step-IsValid p b v) (λ q w. run_keeps-IsValid q bs w)

  -- At the end of a value both strings get a NUL behind them: there is room for these, or the step
  -- fails, in front of any write past a buffer's end.
  abbrev pub HasRoom : Parser C → ℕ → Type 0
  HasRoom p b =
      p.state ≡ state_val
      → is_inline_whitespace_char b ≡ true
      → ((length p.key < key_size) × (length p.val < val_size)) ⊎ (step options parser p b ≡ none)

  end_value-HasRoom :
      (p : Parser C)
      → IsValid p
      → ((length p.key < key_size) × (length p.val < val_size))
        ⊎ (end_value options parser p ≡ none)
  unfolding end_value
  end_value-HasRoom p v = elim (Bool-cases (length p.key == key_size)) [
    | inl e ↦ inr (ap (λ b. (if b then none else some (p.key ++ (0 ∷ []))) >>= with_nul) e)
    | inr e ↦ elim (Bool-cases (length p.val == val_size)) [
      | inl g ↦ inr (
          ap (λ b. (if b then none else some (p.key ++ (0 ∷ []))) >>= with_nul) e
          ∙ ap
              (λ b. (if b then none else some (p.val ++ (0 ∷ []))) >>= (λ val.
                consumed options parser
                  (consume_arg options parser (p.key ++ (0 ∷ [])) val p.input)))
              g)
      | inr g ↦
          let ne = ==_ne (length p.key) key_size e in
          let me = ==_ne (length p.val) val_size g in
          let k = v.key_fits in
          let l = v.val_fits in inl (omega (arith, ne, k), omega (arith, me, l))
    ]
  ]
    where
      with_nul : List ℕ → Option (Parser C)
      with_nul key =
          push_char val_size 0 p.val
          >>= (λ val. consumed options parser (consume_arg options parser key val p.input))

  step-HasRoom : (p : Parser C) (b : ℕ) → IsValid p → HasRoom p b
  unfolding step
  step-HasRoom p b v in_val white = elim (end_value-HasRoom p v) [
    | inl room ↦ inl room
    | inr failed ↦ inr (
        ap (λ s. step_in options parser s p b) in_val
        ∙ ap
            (λ t. if t then end_value options parser p else with_val p (push_char val_size b p.val))
            white
        ∙ failed)
  ]

  -- Whatever bytes the file has, as long as the parser accepts them it has written at most 256
  -- characters of a key and 4096 of a value, and each option starts with both buffers empty. When
  -- the next byte ends a value, either there is room for the NUL behind the key and behind the
  -- value, or the step fails.
  pub run-IsValid :
      (input : C) (bs : List ℕ)
      → OnSome
          (λ p. IsValid p × ((b : ℕ) → HasRoom p b))
          (run options parser (initial options parser input) bs)
  run-IsValid input bs =
      also (run options parser (initial options parser input) bs)
        (run_keeps-IsValid (initial options parser input) bs (initial-IsValid input))
    where
      also : (o : Option (Parser C)) → Valid o → OnSome (λ p. IsValid p × ((b : ℕ) → HasRoom p b)) o
      also none v = tt
      also (some p) v = (v, (λ b. step-HasRoom p b v))
