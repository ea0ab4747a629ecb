-- ===== src/Configp.antt =====
-- The configuration parser of src/configp.c. What argp's option table and the option parser of the
-- program do is a parameter, over a context that stands for `input`.
pub mod Bounds
pub mod Loop
pub mod Lines
mod Tests
use everarch.Prelude.{
  ℕ, zero, suc, ◌+◌, Bool, true, false, ◌&&◌, ◌||◌, Option, none, some, List, [], ◌∷◌, ◌++◌,
  if◌then◌else◌, ◌==◌, leb, length,
}
use everarch.Bytes.{◌>>=◌}
use everarch.Keys.TinySet.{ref_eq}
use everarch.Files.{Source, Grant, ReadResult, failed, got, read}

pub data State : Type 0 where
  state_whitespace state_comment state_key state_post_key state_pre_val state_val : State

-- `key` and `val` hold what stands in front of `keyp` and `valp`; `input` is the caller's context.
pub record Parser (C : Type 0) : Type 0 where
  pub state : State
  pub key : List ℕ
  pub val : List ℕ
  pub input : C

abbrev pub key_size : ℕ
key_size = 256

abbrev pub val_size : ℕ
val_size = 4096

abbrev pub is_key_char : ℕ → Bool
is_key_char c = (leb b'a' c && leb c b'z') || c == b'-'

abbrev pub is_inline_whitespace_char : ℕ → Bool
is_inline_whitespace_char c = c == b' ' || c == b'\n'

-- `push_char`: the buffer must have room behind `p`
abbrev pub push_char : ℕ → ℕ → List ℕ → Option (List ℕ)
push_char size c p = if length p == size then none else some (p ++ (c ∷ []))

-- the characters of a C string in front of its first NUL
unfoldable pub c_string : List ℕ → List ℕ
c_string [] = []
c_string (c ∷ cs) = if c == 0 then [] else c ∷ c_string cs

-- an option of the table: its name and its key
abbrev pub Options : Type 0
Options = List (List ℕ × ℕ)

unfoldable pub find_option : Options → List ℕ → Option ℕ
unfolding ref_eq
find_option [] key = none
find_option ((name, opt_key) ∷ it) key =
    let rest = find_option it key in if ref_eq name key then some opt_key else rest

module _ {C : Type 0} where
  abbrev pub with_key : State → Parser C → Option (List ℕ) → Option (Parser C)
  with_key s p none = none
  with_key s p (some key) = some (record p { state = s; key = key })

  abbrev pub with_val : Parser C → Option (List ℕ) → Option (Parser C)
  with_val p none = none
  with_val p (some val) = some (record p { state = state_val; val = val })

  abbrev pub goto : State → Parser C → Option (Parser C)
  goto s p = some (record p { state = s })

module _ {C : Type 0} (options : Options) (parser : ℕ → List ℕ → C → Option C) where
  abbrev pub consume_found : List ℕ → C → Option ℕ → Option C
  consume_found val input none = none
  consume_found val input (some opt_key) = parser opt_key val input

  -- `configp_consume_arg`
  unfoldable pub consume_arg : List ℕ → List ℕ → C → Option C
  unfolding find_option c_string
  consume_arg key val input =
      consume_found (c_string val) input (find_option options (c_string key))

  abbrev pub consumed : Option C → Option (Parser C)
  consumed none = none
  consumed (some input) =
      some (record { state = state_whitespace; key = []; val = []; input = input })

  -- the end of a value: both strings get their NUL first
  abbrev pub end_value : Parser C → Option (Parser C)
  unfolding consume_arg
  end_value p =
      push_char key_size 0 p.key
      >>= (λ key. push_char val_size 0 p.val >>= (λ val. consumed (consume_arg key val p.input)))

  abbrev pub step_in : State → Parser C → ℕ → Option (Parser C)
  step_in state_whitespace p b =
      if b == b'#'
      then goto state_comment p
      else if is_inline_whitespace_char b
      then some p
      else if is_key_char b
      then with_key state_key p (push_char key_size b p.key)
      else none
  step_in state_comment p b = if b == b'\n' then goto state_whitespace p else some p
  step_in state_key p b =
      if is_key_char b
      then with_key state_key p (push_char key_size b p.key)
      else if b == b' '
      then goto state_post_key p
      else if b == b'='
      then goto state_val p
      else none
  step_in state_post_key p b = if b == b'=' then goto state_pre_val p else none
  step_in state_pre_val p b =
      if is_inline_whitespace_char b then some p else with_val p (push_char val_size b p.val)
  step_in state_val p b =
      if is_inline_whitespace_char b then end_value p else with_val p (push_char val_size b p.val)

  -- the switch, on one byte
  unfoldable pub step : Parser C → ℕ → Option (Parser C)
  step p b = step_in p.state p b

  -- the loop over the bytes that a read put into `buf`
  unfoldable pub run : Parser C → List ℕ → Option (Parser C)
  unfolding step
  run p [] = some p
  run p (b ∷ bs) = step p b >>= (λ q. run q bs)

  -- `if(state != state_whitespace)` behind the loop
  abbrev pub finish_in : State → C → Option C
  finish_in state_whitespace input = some input
  finish_in _ input = none

  abbrev pub finish : Parser C → Option C
  finish p = finish_in p.state p.input

  abbrev pub round : (Source → Parser C → Option C) → Parser C → ReadResult × Source → Option C
  unfolding run
  round recur p (failed, f) = none
  round recur p (got [], f) = finish p
  round recur p (got (b ∷ bs), f) = run p (b ∷ bs) >>= (λ q. recur f q)

  -- `while(1)` of `configp_parse_file`. The source does not look for a read that fails, and reads on
  -- outside `buf` then; here that is an error.
  unfoldable pub read_loop : ℕ → Source → Parser C → Option C
  unfolding read round
  read_loop zero f p = none
  read_loop (suc fuel) f p = round (read_loop fuel) p (read f 4096)

  abbrev pub initial : C → Parser C
  initial input = record { state = state_whitespace; key = []; val = []; input = input }

  -- Each read but the last gives a byte at least, so the file's length is fuel enough.
  unfoldable pub configp_parse_file : Source → C → Option C
  unfolding read_loop
  configp_parse_file f input = read_loop (suc (length f.bytes)) f (initial input)

pub data ConfigFile : Type 0 where
  missing unreadable : ConfigFile
  readable : Source → ConfigFile

-- `configp_parse` takes the first file there is; `none` is `_exit(1)`.
unfoldable pub configp_parse :
    {C : Type 0} → Options → (ℕ → List ℕ → C → Option C) → List ConfigFile → C → Option C
unfolding configp_parse_file
configp_parse options parser [] input = some input
configp_parse options parser (missing ∷ files) input = configp_parse options parser files input
configp_parse options parser (unreadable ∷ files) input = none
configp_parse options parser (readable f ∷ files) input = configp_parse_file options parser f input
