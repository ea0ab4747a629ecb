-- ===== src/Glacier/Tables.antt =====
-- An index database of lists, for runs of src/glacier.c.
use everarch.Prelude.{
  ℕ, Bool, true, false, ◌||◌, ◌==◌, if◌then◌else◌, Option, none, some, List, [], ◌∷◌,
}
use everarch.Keys.TinySet.{ref_eq}
use everarch.Glacier.{
  BlobPosition, StepResult, step_done, constraint_primarykey, IndexDb, bucket_header_size,
}

-- the rows of the blobs, and those of the buckets with their end offsets
abbrev pub Tables : Type 0
Tables = List BlobPosition × List (ℕ × ℕ)

unfoldable pub find_row : List BlobPosition → List ℕ → Option BlobPosition
find_row [] key = none
find_row (p ∷ ps) key = if ref_eq p.key key then some p else find_row ps key

unfoldable pub has_row : List (ℕ × ℕ) → ℕ → Bool
has_row [] i = false
has_row ((j, n) ∷ rows) i = j == i || has_row rows i

unfoldable pub set_row : List (ℕ × ℕ) → ℕ → ℕ → List (ℕ × ℕ)
set_row [] i n = []
set_row ((j, m) ∷ rows) i n = (if j == i then (j, n) else (j, m)) ∷ set_row rows i n

unfoldable pub add_blob : Tables → BlobPosition → Option BlobPosition → StepResult × Tables
add_blob db p (some q) = (constraint_primarykey, db)
add_blob db p none = (step_done, (p ∷ db.0, db.1))

unfoldable pub add_bucket : Tables → ℕ → Bool → StepResult × Tables
add_bucket db i true = (constraint_primarykey, db)
add_bucket db i false = (step_done, (db.0, (i, bucket_header_size) ∷ db.1))

-- an index database whose tables have the keys of the blobs and of the buckets as primary keys
abbrev pub tables : IndexDb Tables
tables = record {
  insert_blob = λ db p. add_blob db p (find_row db.0 p.key);
  insert_bucket = λ db i. add_bucket db i (has_row db.1 i);
  update_bucket_end_offset = λ db i n. (step_done, (db.0, set_row db.1 i n));
  find_blob = λ db key. find_row db.0 key;
}

abbrev pub has_bucket : Tables → ℕ → Bool
has_bucket db i = has_row db.1 i
