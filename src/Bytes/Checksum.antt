-- ===== src/Bytes/Checksum.antt =====
-- What `evr_push_8bit_checksum` and `evr_pull_8bit_checksum` guarantee.
use everarch.Prelude.{
  ℕ, ◌+◌, ◌-◌, ◌%◌, ◌<◌, ◌≡◌, ◌≢◌, refl, true, false, List, [], ◌∷◌, ◌++◌, arith, ==_iff, ne→==,
}
use everarch.Bytes.{IsByte, sum_u8, checksum_u8, pull_checksum}

sum : List ℕ → ℕ
sum [] = 0
sum (b ∷ bs) = b + sum bs

sum-append : (xs ys : List ℕ) → sum (xs ++ ys) ≡ sum xs + sum ys
unfolding sum
sum-append [] ys = omega arith
sum-append (x ∷ xs) ys = omega (arith, sum-append xs ys)

-- The `unsigned char` loop computes the sum modulo 256.
sum_u8-eq-sum : (cs : ℕ) (bs : List ℕ) → cs < 256 → sum_u8 cs bs ≡ (cs + sum bs) % 256
unfolding sum_u8 sum
sum_u8-eq-sum cs [] h = omega arith
sum_u8-eq-sum cs (b ∷ bs) h = omega (arith, sum_u8-eq-sum ((cs + b) % 256) bs (omega arith))

checksum_u8-eq-sum : (bs : List ℕ) → checksum_u8 bs ≡ 255 - sum bs % 256
unfolding checksum_u8
checksum_u8-eq-sum bs = omega (arith, sum_u8-eq-sum 0 bs (omega arith))

pub checksum_u8-IsByte : (bs : List ℕ) → IsByte (checksum_u8 bs)
checksum_u8-IsByte bs = omega (arith, checksum_u8-eq-sum bs)

-- The checksum that was pushed behind some bytes is accepted for them.
pub pull_checksum_self : (bs : List ℕ) → pull_checksum bs (checksum_u8 bs) ≡ true
unfolding pull_checksum
pull_checksum_self bs = (==_iff _ _).1 refl

-- A change of one byte is detected.
pub pull_checksum_detects :
    (xs ys : List ℕ) (a b : ℕ)
    → IsByte a
    → IsByte b
    → a ≢ b
    → pull_checksum (xs ++ (b ∷ ys)) (checksum_u8 (xs ++ (a ∷ ys))) ≡ false
unfolding pull_checksum sum
pull_checksum_detects xs ys a b ha hb ne = ne→== _ _ (
    omega (
      arith,
      checksum_u8-eq-sum (xs ++ (a ∷ ys)),
      checksum_u8-eq-sum (xs ++ (b ∷ ys)),
      sum-append xs (a ∷ ys),
      sum-append xs (b ∷ ys),
    ))
