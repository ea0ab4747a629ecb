-- ===== src/Bytes/Tests.antt =====
-- Concrete bytes for the theorem on the checksum.
use everarch.Prelude.{◌≡◌, false, [], ◌∷◌, ◌++◌, arith}
use everarch.Bytes.{checksum_u8, pull_checksum}
use everarch.Bytes.Checksum.{pull_checksum_detects}

pull_checksum_detects_example :
    pull_checksum
      ((7 ∷ 8 ∷ []) ++ (4 ∷ (200 ∷ [])))
      (checksum_u8 ((7 ∷ 8 ∷ []) ++ (3 ∷ (200 ∷ []))))
    ≡ false
pull_checksum_detects_example =
    pull_checksum_detects (7 ∷ 8 ∷ []) (200 ∷ []) 3 4 (omega arith) (omega arith) (ground arith)
