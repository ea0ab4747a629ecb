-- ===== src/Keys/Scan.antt =====
-- The conversion `%0Wx` of sscanf, which src/keys.c and src/auth.c use: white space is skipped,
-- then up to W characters are read, a sign and a prefix "0x" among them. A negative number wraps
-- round in the `unsigned int`. "0x" with no digit behind it is no match, as in the C standard.
use everarch.Prelude.{
  ℕ, zero, suc, ◌+◌, ◌-◌, ◌*◌, ◌%◌, ◌^◌, Bool, true, false, ◌&&◌, ◌||◌, Option, none, some, List,
  [], ◌∷◌, leb, if◌then◌else◌, ◌==◌, drop,
}

abbrev pub is_space : ℕ → Bool
is_space c = c == 32 || (leb 9 c && leb c 13)

abbrev pub hex_value : ℕ → Option ℕ
hex_value c =
    if leb 48 c && leb c 57
    then some (c - 48)
    else if leb 97 c && leb c 102
    then some (c - 87)
    else if leb 65 c && leb c 70
    then some (c - 55)
    else none

abbrev pub seen_value : ℕ → Bool → Option ℕ
seen_value acc seen = if seen then some acc else none

unfoldable pub scan_digits : ℕ → ℕ → Bool → List ℕ → Option ℕ
scan_digits zero acc seen s = seen_value acc seen
scan_digits (suc w) acc seen [] = seen_value acc seen
scan_digits (suc w) acc seen (c ∷ s) = elim (hex_value c) [
  | none ↦ seen_value acc seen
  | some d ↦ scan_digits w (acc * 16 + d) true s
]

abbrev pub has_0x : ℕ → List ℕ → Bool
has_0x w (a ∷ b ∷ s) = leb 2 w && (a == b'0' && (b == b'x' || b == b'X'))
has_0x w _ = false

unfoldable pub scan_prefix : ℕ → List ℕ → Option ℕ
unfolding scan_digits
scan_prefix w s =
    if has_0x w s then scan_digits (w - 2) 0 false (drop 2 s) else scan_digits w 0 false s

abbrev pub negate_u32 : Option ℕ → Option ℕ
negate_u32 none = none
negate_u32 (some v) = some ((2 ^ 32 - v % 2 ^ 32) % 2 ^ 32)

unfoldable pub scan_sign : ℕ → List ℕ → Option ℕ
unfolding scan_prefix
scan_sign w [] = none
scan_sign w (c ∷ s) =
    if c == b'+'
    then scan_prefix (w - 1) s
    else if c == b'-'
    then negate_u32 (scan_prefix (w - 1) s)
    else scan_prefix w (c ∷ s)

unfoldable pub skip_space : List ℕ → List ℕ
skip_space [] = []
skip_space (c ∷ s) = if is_space c then skip_space s else c ∷ s

unfoldable pub scan_hex : ℕ → List ℕ → Option ℕ
unfolding scan_sign skip_space
scan_hex w s = scan_sign w (skip_space s)
