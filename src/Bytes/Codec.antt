-- ===== src/Bytes/Codec.antt =====
-- Round trips of the pushes and pulls of src/basics.h.
use native.Mathlib.Nat.{
  div-add-mod, pow-suc, mod-lt, mod-eq_of_lt, mul-le-mul_right, add-mul-mod_self_right,
}
use native.Mathlib.Omega.{arith}
use everarch.Prelude.{
  ℕ, zero, suc, ◌+◌, ◌*◌, ◌/◌, ◌%◌, ◌^◌, ◌≤◌, ◌<◌, ◌≡◌, refl, ap, ◌∙◌, none, some, List, [], ◌∷◌,
  ◌++◌, length, All,
}
use everarch.Bytes.{IsByte, push_be, pull_be, pull_n}

pub length-push_be : (n v : ℕ) → length (push_be n v) ≡ n
unfolding push_be
length-push_be zero v = refl
length-push_be (suc n) v = ap suc (length-push_be n v)

pub push_be-IsByte : (n v : ℕ) → All IsByte (push_be n v)
unfolding push_be
push_be-IsByte zero v = tt
push_be-IsByte (suc n) v = (omega arith, push_be-IsByte n v)

pub pow_pos : (n : ℕ) → 0 < 256 ^ n
pow_pos zero = omega arith
pow_pos (suc n) = omega (arith, pow_pos n, pow-suc 256 n)

-- The lowest digits of `v`, and one more.
mod_digit : (v p : ℕ) → 0 < p → v % (p * 256) ≡ v / p % 256 * p + v % p
mod_digit v p h =
    ap (λ (t : ℕ). t % (p * 256)) split
    ∙ add-mul-mod_self_right (v / p % 256 * p + v % p) (v / p / 256) (p * 256)
    ∙ mod-eq_of_lt small
  where
    split : v ≡ v / p % 256 * p + v % p + v / p / 256 * (p * 256)
    split = omega (arith, div-add-mod v p, ap (λ (t : ℕ). t * p) (div-add-mod (v / p) 256))

    small : v / p % 256 * p + v % p < p * 256
    small = omega (arith, mod-lt v h, mul-le-mul_right p (digit (v / p)))
      where
        digit : (q : ℕ) → q % 256 ≤ 255
        digit q = omega arith

-- Reading `n` bytes of what `push_be` wrote gives the number's low bytes, and the bytes behind.
pub pull_be-push_be :
    (n acc v : ℕ) (rest : List ℕ)
    → pull_be n acc (push_be n v ++ rest) ≡ some (acc * 256 ^ n + v % 256 ^ n, rest)
unfolding pull_be push_be
pull_be-push_be zero acc v rest = ap (λ (t : ℕ). some (t, rest)) (omega arith)
pull_be-push_be (suc n) acc v rest =
    pull_be-push_be n (acc * 256 + v / 256 ^ n % 256) v rest ∙ ap (λ (t : ℕ). some (t, rest)) sum
  where
    sum :
        (acc * 256 + v / 256 ^ n % 256) * 256 ^ n + v % 256 ^ n
        ≡ acc * 256 ^ suc n + v % 256 ^ suc n
    sum = rw pow-suc (omega (arith, mod_digit v (256 ^ n) (pow_pos n)))

-- The same from an empty accumulator.
pub pull_be-push_be_zero :
    (n v : ℕ) (rest : List ℕ) → pull_be n 0 (push_be n v ++ rest) ≡ some (v % 256 ^ n, rest)
pull_be-push_be_zero n v rest =
    pull_be-push_be n 0 v rest ∙ ap (λ (t : ℕ). some (t, rest)) (omega arith)

pub pull_n-append :
    (xs rest : List ℕ) (n : ℕ) → n ≡ length xs → pull_n n (xs ++ rest) ≡ some (xs, rest)
unfolding pull_n
pull_n-append [] rest zero h = refl
pull_n-append [] rest (suc n) h = absurd (omega arith)
pull_n-append (x ∷ xs) rest zero h = absurd (omega arith)
pull_n-append (x ∷ xs) rest (suc n) h = rw (pull_n-append xs rest n (omega arith))

-- A pull of `n` bytes takes exactly `n`, and fails exactly when fewer are left.
pub pull_n-short : (n : ℕ) (bs : List ℕ) → length bs < n → pull_n n bs ≡ none
unfolding pull_n
pull_n-short zero bs h = absurd (omega arith)
pull_n-short (suc n) [] h = refl
pull_n-short (suc n) (b ∷ bs) h = rw (pull_n-short n bs (omega arith))
