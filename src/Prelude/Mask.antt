-- ===== src/Prelude/Mask.antt =====
-- `x & (2^k - 1)`, with which the ring buffers of the program wrap their indices, is the remainder.
use Prim.Native.Nat.{
  ℕ, zero, suc, ◌+◌, ◌-◌, ◌*◌, ◌/◌, ◌%◌, ◌^◌, ◌≤◌, ◌<◌, min, digits, bit_and, bit_and-bitwise,
}
use mathlib.Core.Path.{◌≡◌, sym, ap, ap₂, ◌∙◌}
use native.Mathlib.Nat.{div-add-mod, pow-suc, mod-lt, mod-eq_of_lt, add-mul-mod_self_right, le_refl}
use native.Mathlib.Omega.{arith}

pub two_pow_pos : (k : ℕ) → 0 < 2 ^ k
two_pow_pos zero = omega arith
two_pow_pos (suc k) = omega (arith, two_pow_pos k, pow-suc 2 k)

-- The remainder by twice a number: its lowest digit and the remainder of the half.
mod_double : (v p : ℕ) → 0 < p → v % (p * 2) ≡ v / 2 % p * 2 + v % 2
mod_double v p h =
    ap (λ (t : ℕ). t % (p * 2)) parts
    ∙ add-mul-mod_self_right (v / 2 % p * 2 + v % 2) (v / 2 / p) (p * 2)
    ∙ mod-eq_of_lt {n = v / 2 % p * 2 + v % 2} {m = p * 2} (omega (arith, mod-lt (v / 2) h))
  where
    parts : v ≡ v / 2 % p * 2 + v % 2 + v / 2 / p * (p * 2)
    parts = omega (arith, div-add-mod (v / 2) p)

mask_digits : (k n a : ℕ) → a ≤ n → digits (λ b. zero) min n a (2 ^ k - 1) ≡ a % 2 ^ k
mask_digits k zero zero h = omega (arith, mod-eq_of_lt {n = 0} (two_pow_pos k))
mask_digits k zero (suc a) h = elim h [ ]
mask_digits k (suc n) zero h = omega (arith, mod-eq_of_lt {n = 0} (two_pow_pos k))
mask_digits zero (suc n) (suc a) h = omega (arith, mask_digits zero n (suc a / 2) (omega arith))
mask_digits (suc k) (suc n) (suc a) h =
    ap₂ (λ (b c : ℕ). digits (λ _. zero) min n (suc a / 2) b * 2 + min (suc a % 2) c) half odd
    ∙ lowest (mask_digits k n (suc a / 2) (omega arith))
    ∙ ap (λ (t : ℕ). suc a % t) (sym (pow-suc 2 k))
  where
    half : (2 ^ suc k - 1) / 2 ≡ 2 ^ k - 1
    half = omega (arith, pow-suc 2 k, two_pow_pos k)

    odd : (2 ^ suc k - 1) % 2 ≡ 1
    odd = omega (arith, pow-suc 2 k, two_pow_pos k)

    lowest :
        digits (λ _. zero) min n (suc a / 2) (2 ^ k - 1) ≡ suc a / 2 % 2 ^ k
        → digits (λ _. zero) min n (suc a / 2) (2 ^ k - 1) * 2 + min (suc a % 2) 1
          ≡ suc a % (2 ^ k * 2)
    lowest e = omega (arith, e, mod_double (suc a) (2 ^ k) (two_pow_pos k))

pub bit_and-mask : (x k : ℕ) → bit_and x (2 ^ k - 1) ≡ x % 2 ^ k
bit_and-mask x k = bit_and-bitwise x (2 ^ k - 1) ∙ mask_digits k x x (le_refl x)
