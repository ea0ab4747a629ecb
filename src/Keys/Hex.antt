-- ===== src/Keys/Hex.antt =====
-- A number that was printed in hexadecimal is scanned back.
use everarch.Prelude.{
  ℕ, suc, ◌+◌, ◌*◌, ◌/◌, ◌%◌, ◌<◌, ◌≡◌, refl, ap, ◌∙◌, Bool, true, false, some, List, [], ◌∷◌,
  arith, ◌==◌,
}
use everarch.Keys.Scan.{
  hex_value, is_space, has_0x, scan_digits, scan_prefix, scan_sign, skip_space, scan_hex,
}
use everarch.Keys.{hex_digit, fmt_hex2, fmt_hex4, scan_byte, byte_or_none}

hex_value-hex_digit : (d : ℕ) → d < 16 → hex_value (hex_digit d) ≡ some d
hex_value-hex_digit d h = ground arith

record IsPlain (c : ℕ) : Type 0 where
  space : is_space c ≡ false
  plus : (c == b'+') ≡ false
  minus : (c == b'-') ≡ false
  cross : (c == b'x') ≡ false
  capital : (c == b'X') ≡ false

hex_digit-IsPlain : (d : ℕ) → d < 16 → IsPlain (hex_digit d)
hex_digit-IsPlain d h = ground arith

skip_space_plain : (a : ℕ) (s : List ℕ) → IsPlain a → skip_space (a ∷ s) ≡ a ∷ s
unfolding skip_space
skip_space_plain a s p = rw p.space

scan_sign_plain : (w a : ℕ) (s : List ℕ) → IsPlain a → scan_sign w (a ∷ s) ≡ scan_prefix w (a ∷ s)
unfolding scan_sign
scan_sign_plain w a s p = rw (p.plus, p.minus)

has_0x_plain : (w a b : ℕ) (s : List ℕ) → IsPlain b → has_0x w (a ∷ b ∷ s) ≡ false
has_0x_plain w a b s p = ground arith

scan_prefix_plain :
    (w a b : ℕ) (s : List ℕ)
    → IsPlain b
    → scan_prefix w (a ∷ b ∷ s) ≡ scan_digits w 0 false (a ∷ b ∷ s)
unfolding scan_prefix
scan_prefix_plain w a b s p = rw (has_0x_plain w a b s p)

-- Two characters of which neither is white space, a sign or an x are read as digits.
scan_hex_plain :
    (w a b : ℕ) (s : List ℕ)
    → IsPlain a
    → IsPlain b
    → scan_hex w (a ∷ b ∷ s) ≡ scan_digits w 0 false (a ∷ b ∷ s)
unfolding scan_hex
scan_hex_plain w a b s pa pb =
    ap (scan_sign w) (skip_space_plain a (b ∷ s) pa)
    ∙ scan_sign_plain w a (b ∷ s) pa
    ∙ scan_prefix_plain w a b s pb

scan_digits_step :
    (w acc d : ℕ) (seen : Bool) (s : List ℕ)
    → d < 16
    → scan_digits (suc w) acc seen (hex_digit d ∷ s) ≡ scan_digits w (acc * 16 + d) true s
unfolding scan_digits
scan_digits_step w acc d seen s h = rw (hex_value-hex_digit d h, scan_digits)

scan_digits_done : (acc : ℕ) (s : List ℕ) → scan_digits 0 acc true s ≡ some acc
unfolding scan_digits
scan_digits_done acc s = refl

pub scan_hex-fmt_hex2 : (b : ℕ) → b < 256 → scan_hex 2 (fmt_hex2 b) ≡ some b
scan_hex-fmt_hex2 b h =
    scan_hex_plain 2 _ _ [] (hex_digit-IsPlain (b / 16) (omega arith))
      (hex_digit-IsPlain (b % 16) (omega arith))
    ∙ scan_digits_step 1 0 (b / 16) false _ (omega arith)
    ∙ scan_digits_step 0 _ (b % 16) true _ (omega arith)
    ∙ scan_digits_done _ _
    ∙ ap some (omega arith)

pub scan_hex-fmt_hex4 : (n : ℕ) → n < 65536 → scan_hex 4 (fmt_hex4 n) ≡ some n
scan_hex-fmt_hex4 n h =
    scan_hex_plain 4 _ _ _ (hex_digit-IsPlain (n / 4096) (omega arith))
      (hex_digit-IsPlain (n / 256 % 16) (omega arith))
    ∙ scan_digits_step 3 0 (n / 4096) false _ (omega arith)
    ∙ scan_digits_step 2 _ (n / 256 % 16) true _ (omega arith)
    ∙ scan_digits_step 1 _ (n / 16 % 16) true _ (omega arith)
    ∙ scan_digits_step 0 _ (n % 16) true _ (omega arith)
    ∙ scan_digits_done _ _
    ∙ ap some (omega arith)

pub scan_byte-fmt_hex2 :
    (b : ℕ) → b < 256 → scan_byte (hex_digit (b / 16)) (hex_digit (b % 16)) ≡ some b
scan_byte-fmt_hex2 b h = ap byte_or_none (scan_hex-fmt_hex2 b h) ∙ ground arith

-- What `evr_parse_blob_ref` accepts as a pair is a byte.
pub scan_byte-lt : (a b v : ℕ) → scan_byte a b ≡ some v → v < 256
scan_byte-lt a b v h = ground arith
