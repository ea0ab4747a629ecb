-- ===== src/ChunkSet/Tests.antt =====
-- Seven bytes are read into chunks of three, a few at a time.
use everarch.Prelude.{[], ◌∷◌}
use everarch.Files.{give, Source}

abbrev seven : Source
seven = record {
  bytes = 1 ∷ 2 ∷ 3 ∷ 4 ∷ 5 ∷ 6 ∷ 7 ∷ 8 ∷ [];
  grants = give 1 ∷ give 0 ∷ give 5 ∷ [];
}
