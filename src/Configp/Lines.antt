-- ===== src/Configp/Lines.antt =====
-- What a configuration file written in lines does: its options are applied in order.
use everarch.Prelude.{
  ℕ, ◌+◌, ◌≤◌, ◌<◌, ◌≡◌, ◌≢◌, refl, sym, ap, ◌∙◌, Bool, true, false, Option, none, some, List, [],
  ◌∷◌, ◌++◌, arith, length, length-append, append-nil, append_assoc, All, if◌then◌else◌, ne→==,
}
use everarch.Bytes.{◌>>=◌}
use everarch.Files.{Source}
use everarch.Files.ReadN.{Flows}
use everarch.Configp.{
  State, state_whitespace, state_comment, state_key, state_val, Parser, key_size, val_size, Options,
  is_key_char, is_inline_whitespace_char, push_char, c_string, find_option, consume_arg,
  consume_found, consumed, end_value, step, run, finish, initial, configp_parse_file,
}
use everarch.Configp.Loop.{configp_parse_file_whole}

pub data Line : Type 0 where
  -- an option, with a space on each side of the `=` or with none
  option_line : (k : ℕ) (ks val : List ℕ) (spaced : Bool) → Line
  comment_line : List ℕ → Line
  blank_line : Line

abbrev pub assign : Bool → List ℕ
assign true = b' ' ∷ b'=' ∷ b' ' ∷ []
assign false = b'=' ∷ []

abbrev pub render : Line → List ℕ → List ℕ
render (option_line k ks val spaced) rest = (k ∷ ks) ++ (assign spaced ++ (val ++ (b'\n' ∷ rest)))
render (comment_line text) rest = b'#' ∷ (text ++ (b'\n' ∷ rest))
render blank_line rest = b'\n' ∷ rest

unfoldable pub render_all : List Line → List ℕ
render_all [] = []
render_all (l ∷ ls) = render l (render_all ls)

abbrev pub IsKeyChar : ℕ → Type 0
IsKeyChar c = is_key_char c ≡ true

abbrev pub IsValChar : ℕ → Type 0
IsValChar c = (is_inline_whitespace_char c ≡ false) × (c ≢ 0)

-- Keys and values fit their buffers with the final NUL. Behind spaces a value is not empty.
abbrev pub IsLine : Line → Type 0
IsLine (option_line k ks val spaced) =
    All IsKeyChar (k ∷ ks)
    × All IsValChar val
    × (length (k ∷ ks) < key_size)
    × (length val < val_size)
    × (spaced ≡ true → val ≢ [])
IsLine (comment_line text) = All (λ c. c ≢ b'\n') text
IsLine blank_line = Unit {0}

push_char_room :
    (size c : ℕ) (p : List ℕ) → length p < size → push_char size c p ≡ some (p ++ (c ∷ []))
push_char_room size c p h =
    ap (λ b. if b then none else some (p ++ (c ∷ [])))
      (ne→== (length p) size (λ e. omega (arith, h, e)))

c_string_nul : (xs : List ℕ) → All IsValChar xs → c_string (xs ++ (0 ∷ [])) ≡ xs
unfolding c_string
c_string_nul [] h = refl
c_string_nul (x ∷ xs) ((w, ne), h) = rw (ne→== x 0 ne, c_string_nul xs h)

key_char_ne : (c : ℕ) → IsKeyChar c → c ≢ 0
key_char_ne c h e = ground arith

keys-IsValChar : (ks : List ℕ) → All IsKeyChar ks → All IsValChar ks
keys-IsValChar [] h = tt
keys-IsValChar (k ∷ ks) (h, hs) = ((ground arith, key_char_ne k h), keys-IsValChar ks hs)

module _ {C : Type 0} (options : Options) (parser : ℕ → List ℕ → C → Option C) where
  abbrev at : State → List ℕ → List ℕ → C → Parser C
  at s k v input = record { state = s; key = k; val = v; input = input }

  -- What a line does to the context.
  abbrev pub apply_line : Line → C → Option C
  unfolding find_option
  apply_line (option_line k ks val spaced) input =
      consume_found options parser val input (find_option options (k ∷ ks))
  apply_line _ input = some input

  unfoldable pub apply_all : List Line → C → Option C
  unfolding apply_line
  apply_all [] input = some input
  apply_all (l ∷ ls) input = apply_line l input >>= apply_all ls

  run_key :
      (k ks rest : List ℕ) (input : C)
      → All IsKeyChar ks
      → length k + length ks ≤ key_size
      → run options parser (at state_key k [] input) (ks ++ rest)
        ≡ run options parser (at state_key (k ++ ks) [] input) rest
  unfolding run step
  run_key k [] rest input h le =
      ap (λ x. run options parser (at state_key x [] input) rest) (sym (append-nil k))
  run_key k (c ∷ ks) rest input (h, hs) le =
      rw (h, push_char_room key_size c k (omega (arith, le)))
        (run_key (k ++ (c ∷ [])) ks rest input hs (omega (arith, le, length-append k (c ∷ [])))
          ∙ ap (λ x. run options parser (at state_key x [] input) rest)
              (append_assoc k (c ∷ []) ks))

  run_val :
      (k v vs rest : List ℕ) (input : C)
      → All IsValChar vs
      → length v + length vs ≤ val_size
      → run options parser (at state_val k v input) (vs ++ rest)
        ≡ run options parser (at state_val k (v ++ vs) input) rest
  unfolding run step
  run_val k v [] rest input h le =
      ap (λ x. run options parser (at state_val k x input) rest) (sym (append-nil v))
  run_val k v (c ∷ vs) rest input ((h, ne), hs) le =
      rw (h, push_char_room val_size c v (omega (arith, le)))
        (run_val k (v ++ (c ∷ [])) vs rest input hs (omega (arith, le, length-append v (c ∷ [])))
          ∙ ap (λ x. run options parser (at state_val k x input) rest) (append_assoc v (c ∷ []) vs))

  run_comment :
      (text rest : List ℕ) (input : C)
      → All (λ c. c ≢ b'\n') text
      → run options parser (at state_comment [] [] input) (text ++ (b'\n' ∷ rest))
        ≡ run options parser (at state_whitespace [] [] input) rest
  unfolding run step
  run_comment [] rest input h = refl
  run_comment (c ∷ text) rest input (ne, h) = rw (ne→== c b'\n' ne) (run_comment text rest input h)

  run_first :
      (k : ℕ) (rest : List ℕ) (input : C)
      → IsKeyChar k
      → run options parser (at state_whitespace [] [] input) (k ∷ rest)
        ≡ run options parser (at state_key (k ∷ []) [] input) rest
  unfolding run step
  run_first k rest input h = ground arith

  run_to_val :
      (key vs rest : List ℕ) (input : C) (spaced : Bool)
      → All IsValChar vs
      → length vs ≤ val_size
      → (spaced ≡ true → vs ≢ [])
      → run options parser (at state_key key [] input) (assign spaced ++ (vs ++ rest))
        ≡ run options parser (at state_val key vs input) rest
  unfolding run step
  run_to_val key vs rest input false h le ne = run_val key [] vs rest input h (omega (arith, le))
  run_to_val key [] rest input true h le ne = absurd (ne refl refl)
  run_to_val key (v ∷ vs) rest input true ((w, z), h) le ne =
      rw w (run_val key (v ∷ []) vs rest input h (omega (arith, le)))

  consumed_lem :
      (o : Option C) (rest : List ℕ)
      → (consumed options parser o >>= (λ q. run options parser q rest))
        ≡ (o >>= (λ i. run options parser (at state_whitespace [] [] i) rest))
  consumed_lem none rest = refl
  consumed_lem (some i) rest = refl

  run_end :
      (key vs rest : List ℕ) (input : C)
      → All IsValChar key
      → All IsValChar vs
      → length key < key_size
      → length vs < val_size
      → run options parser (at state_val key vs input) (b'\n' ∷ rest) ≡ (
          consume_found options parser vs input (find_option options key)
          >>= (λ i. run options parser (at state_whitespace [] [] i) rest))
  unfolding run step end_value consume_arg
  run_end key vs rest input hk hv lk lv =
      rw
        (
          push_char_room key_size 0 key lk,
          push_char_room val_size 0 vs lv,
          c_string_nul key hk,
          c_string_nul vs hv,
        )
        (consumed_lem (consume_found options parser vs input (find_option options key)) rest)

  line_lem :
      (l : Line) (rest : List ℕ) (input : C)
      → IsLine l
      → run options parser (at state_whitespace [] [] input) (render l rest)
        ≡ (apply_line l input >>= (λ i. run options parser (at state_whitespace [] [] i) rest))
  unfolding apply_line find_option
  line_lem (option_line k ks val spaced) rest input ((hk, hks), hv, lk, lv, ne) =
      run_first k (ks ++ (assign spaced ++ (val ++ (b'\n' ∷ rest)))) input hk
      ∙ run_key (k ∷ []) ks (assign spaced ++ (val ++ (b'\n' ∷ rest))) input hks (omega (arith, lk))
      ∙ run_to_val (k ∷ ks) val (b'\n' ∷ rest) input spaced hv (omega (arith, lv)) ne
      ∙ run_end (k ∷ ks) val rest input (keys-IsValChar (k ∷ ks) (hk, hks)) hv lk lv
  line_lem (comment_line text) rest input h = unfold run step in run_comment text rest input h
  line_lem blank_line rest input h = unfold run step in refl

  lines_lem :
      (ls : List Line) (input : C)
      → All IsLine ls
      → (run options parser (at state_whitespace [] [] input) (render_all ls)
          >>= (λ t. finish options parser t))
        ≡ apply_all ls input
  unfolding render_all apply_all
  lines_lem [] input h = unfold run in refl
  lines_lem (l ∷ ls) input (hl, hs) =
      ap (λ o. o >>= (λ t. finish options parser t)) (line_lem l (render_all ls) input hl)
      ∙ applied ls (λ i. lines_lem ls i hs) (apply_line l input)
    where
      applied :
          (ls : List Line)
          (ih : (i : C)
            → (run options parser (at state_whitespace [] [] i) (render_all ls)
                >>= (λ t. finish options parser t))
              ≡ apply_all ls i)
          (o : Option C)
          → (o
              >>= (λ i. run options parser (at state_whitespace [] [] i) (render_all ls))
              >>= (λ t. finish options parser t))
            ≡ (o >>= apply_all ls)
      applied ls ih none = refl
      applied ls ih (some i) = ih i

  -- On a file of lines, each an option, a comment or blank, the parser applies the options in the
  -- order of the lines and stops at the first that it does not know or that is refused. An option's
  -- name and value must fit the buffers with their NUL, a value has no white space, and behind
  -- spaces it is not empty. The reads must not fail.
  pub configp_parse_file_lines :
      (ls : List Line) (f : Source) (input : C)
      → All IsLine ls
      → Flows f.grants
      → f.bytes ≡ render_all ls
      → configp_parse_file options parser f input ≡ apply_all ls input
  configp_parse_file_lines ls f input h fl e =
      configp_parse_file_whole options parser f input fl
      ∙ ap
          (λ x.
            run options parser (initial options parser input) x >>= (λ t. finish options parser t))
          e
      ∙ lines_lem ls input h
