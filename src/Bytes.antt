-- ===== src/Bytes.antt =====
-- The cursor of src/basics.h (`struct evr_buf_pos`) and the 8 bit checksum of src/basics.c.
-- A push appends the bytes it writes; a pull returns the value with the bytes that stand behind
-- it, and `none` where the C code would read past the end of the buffer.
pub mod Codec
pub mod Checksum
mod Tests
use everarch.Prelude.{
  ℕ, zero, suc, ◌+◌, ◌-◌, ◌*◌, ◌/◌, ◌%◌, ◌^◌, ◌<◌, Bool, true, false, Option, none, some, List, [],
  ◌∷◌, ◌++◌, if◌then◌else◌, ◌==◌,
}

abbrev pub IsByte : ℕ → Type 0
IsByte b = b < 256

abbrev pub u16 : ℕ
u16 = 2 ^ 16

abbrev pub u32 : ℕ
u32 = 2 ^ 32

abbrev pub u64 : ℕ
u64 = 2 ^ 64

-- `evr_push_as(bp, val, uint8_t)`
unfoldable pub push_u8 : ℕ → List ℕ
push_u8 v = v % 256 ∷ []

-- `evr_push_map(bp, val, uintN_t, htobeN)` with N = 8 * n: the low n bytes, the highest first
unfoldable pub push_be : ℕ → ℕ → List ℕ
push_be zero v = []
push_be (suc n) v = v / 256 ^ n % 256 ∷ push_be n v

-- `evr_pull_as(bp, val, uint8_t)`
unfoldable pub pull_u8 : List ℕ → Option (ℕ × List ℕ)
pull_u8 [] = none
pull_u8 (b ∷ rest) = some (b, rest)

-- `evr_pull_map(bp, val, uintN_t, beNtoh)`, where `acc` is the number read so far
unfoldable pub pull_be : ℕ → ℕ → List ℕ → Option (ℕ × List ℕ)
pull_be zero acc bs = some (acc, bs)
pull_be (suc n) acc [] = none
pull_be (suc n) acc (b ∷ bs) = pull_be n (acc * 256 + b) bs

-- `evr_pull_n`
unfoldable pub pull_n : ℕ → List ℕ → Option (List ℕ × List ℕ)
pull_n zero bs = some ([], bs)
pull_n (suc n) [] = none
pull_n (suc n) (b ∷ bs) = elim (pull_n n bs) [ none ↦ none | some (xs, rest) ↦ some (b ∷ xs, rest) ]

infixl 5 ◌>>=◌
abbrev pub ◌>>=◌ {ℓ κ} : {A : Type ℓ} {B : Type κ} → Option A → (A → Option B) → Option B
none >>= f = none
some a >>= f = f a

-- the loop of `evr_buf_pos_8bit_checksum`, over `unsigned char`
unfoldable pub sum_u8 : ℕ → List ℕ → ℕ
sum_u8 cs [] = cs
sum_u8 cs (b ∷ bs) = sum_u8 ((cs + b) % 256) bs

-- `cs = ~cs` on an `unsigned char`
unfoldable pub checksum_u8 : List ℕ → ℕ
unfolding sum_u8
checksum_u8 bs = 255 - sum_u8 0 bs

-- `evr_push_8bit_checksum` appends the checksum of what stands before it.
unfoldable pub push_checksum : List ℕ → List ℕ
unfolding checksum_u8 push_u8
push_checksum bs = bs ++ push_u8 (checksum_u8 bs)

-- `evr_pull_8bit_checksum` compares the next byte with the checksum of what stands before it.
unfoldable pub pull_checksum : List ℕ → ℕ → Bool
unfolding checksum_u8
pull_checksum bs buf_cs = checksum_u8 bs == buf_cs
