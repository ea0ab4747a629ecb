-- ===== src/Configp/Loop.antt =====
-- `configp_parse_file` reads a file in pieces; what it does depends on the file's bytes only.
use everarch.Prelude.{
  ℕ, zero, suc, ◌<◌, ◌≡◌, refl, sym, ap, ◌∙◌, Option, none, some, List, [], ◌∷◌, ◌++◌, arith,
  length, length-append,
}
use everarch.Bytes.{◌>>=◌}
use everarch.Files.{Source, Grant, ReadResult, failed, got, read, read_grant}
use everarch.Files.ReadN.{Flows, ReadCase, read_grant_case}
use everarch.Configp.{
  Options, Parser, step, run, finish, round, read_loop, initial, configp_parse_file,
}

bind-bind :
    {A B D : Type 0} (o : Option A) (f : A → Option B) (g : B → Option D)
    → (o >>= f >>= g) ≡ (o >>= (λ a. f a >>= g))
bind-bind none f g = refl
bind-bind (some a) f g = refl

bind_same :
    {A B : Type 0} (o : Option A) (f g : A → Option B)
    → ((a : A) → f a ≡ g a)
    → (o >>= f) ≡ (o >>= g)
bind_same none f g h = refl
bind_same (some a) f g h = h a

module _ {C : Type 0} (options : Options) (parser : ℕ → List ℕ → C → Option C) where
  pub run-append :
      (p : Parser C) (xs ys : List ℕ)
      → run options parser p (xs ++ ys)
        ≡ (run options parser p xs >>= (λ q. run options parser q ys))
  unfolding run
  run-append p [] ys = refl
  run-append p (x ∷ xs) ys =
      bind_same (step options parser p x) _ _ (λ q. run-append q xs ys)
      ∙ sym (
          bind-bind (step options parser p x) (λ q. run options parser q xs)
            (λ q. run options parser q ys))

  -- the parse of a whole text
  abbrev pub parse_all : Parser C → List ℕ → Option C
  unfolding run
  parse_all p bytes = run options parser p bytes >>= (λ q. finish options parser q)

  round_lem :
      (recur : Source → Parser C → Option C) (bytes : List ℕ) (gs : List Grant) (p : Parser C)
      (r : ReadResult × Source)
      → Flows gs
      → ReadCase bytes gs 4096 r
      → ((g : Source) (q : Parser C)
          → length g.bytes < length bytes
          → Flows g.grants
          → recur g q ≡ (run options parser q g.bytes >>= (λ t. finish options parser t)))
      → round options parser recur p r
        ≡ (run options parser p bytes >>= (λ t. finish options parser t))
  unfolding run
  round_lem recur bytes gs p (failed, f) fl bad ih = absurd (bad fl)
  round_lem recur bytes gs p (got [], f) fl (e, short, empty, flows) ih =
      sym (ap (λ x. run options parser p x >>= (λ t. finish options parser t)) (empty refl))
  round_lem recur bytes gs p (got (b ∷ bs), f) fl (e, short, empty, flows) ih =
      bind_same (run options parser p (b ∷ bs)) _ _
        (λ q. ih f q (omega (arith, ap length e, length-append (b ∷ bs) f.bytes)) (flows fl))
      ∙ sym (
          bind-bind (run options parser p (b ∷ bs)) (λ q. run options parser q f.bytes)
            (λ t. finish options parser t))
      ∙ ap (λ o. o >>= (λ t. finish options parser t)) (sym (run-append p (b ∷ bs) f.bytes))
      ∙ ap (λ x. run options parser p x >>= (λ t. finish options parser t)) (sym e)

  read_loop_lem :
      (fuel : ℕ) (f : Source) (p : Parser C)
      → length f.bytes < fuel
      → Flows f.grants
      → read_loop options parser fuel f p
        ≡ (run options parser p f.bytes >>= (λ t. finish options parser t))
  unfolding read_loop read
  read_loop_lem zero f p lt fl = absurd (omega arith)
  read_loop_lem (suc fuel) f p lt fl =
      round_lem (read_loop options parser fuel) f.bytes f.grants p
        (read_grant f.bytes 4096 f.grants) fl (read_grant_case f.bytes 4096 f.grants (omega arith))
        (λ g q less flows. read_loop_lem fuel g q (omega (arith, less, lt)) flows)

  -- When no read fails, `configp_parse_file` ends, and does what the automaton does on the file's
  -- bytes at once, however the reads cut them, with the test for a final newline behind.
  pub configp_parse_file_whole :
      (f : Source) (input : C)
      → Flows f.grants
      → configp_parse_file options parser f input ≡ (
          run options parser (initial options parser input) f.bytes
          >>= (λ t. finish options parser t))
  unfolding configp_parse_file
  configp_parse_file_whole f input fl =
      read_loop_lem (suc (length f.bytes)) f (initial options parser input) (omega arith) fl
