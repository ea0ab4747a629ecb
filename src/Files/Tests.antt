-- ===== src/Files/Tests.antt =====
-- Concrete files for the theorems on the transfer loops.
use everarch.Prelude.{ℕ, ◌+◌, ◌≡◌, refl, List, [], ◌∷◌, ◌++◌, arith, length, length-append}
use everarch.Errors.{ok}
use everarch.Files.{give, fail, Source, Sink, SideEffect, read_n, write_n}
use everarch.Files.ReadN.{ReadSpec, read_n_exact}
use everarch.Files.WriteN.{WriteSpec, write_n_exact}

-- a file of five bytes whose second read fails after a short one
abbrev source : Source
source = record { bytes = 1 ∷ 2 ∷ 3 ∷ 4 ∷ 5 ∷ []; grants = give 1 ∷ give 0 ∷ [] }

abbrev sink : Sink
sink = record { out = 9 ∷ []; grants = give 1 ∷ fail ∷ [] }

-- a side effect that counts the bytes it is shown
abbrev count_se : SideEffect ℕ
count_se n bs = (ok, n + length bs)

abbrev count : ℕ → List ℕ → ℕ
count n bs = n + length bs

count-append : (n : ℕ) (xs ys : List ℕ) → count (count n xs) ys ≡ count n (xs ++ ys)
count-append n xs ys = omega (arith, length-append xs ys)

read_n_exact_example :
    ReadSpec count
      (1 ∷ 2 ∷ 3 ∷ 4 ∷ 5 ∷ [])
      (give 1 ∷ give 0 ∷ [])
      4
      []
      0
      (read_n count_se source 4 0)
read_n_exact_example =
    read_n_exact count_se count (λ n bs. refl) (λ n. omega arith) count-append source 4 0

write_n_exact_example :
    WriteSpec (1 ∷ 2 ∷ 3 ∷ []) (9 ∷ []) (give 1 ∷ fail ∷ []) (write_n sink (1 ∷ 2 ∷ 3 ∷ []))
write_n_exact_example = write_n_exact sink (1 ∷ 2 ∷ 3 ∷ [])
