-- ===== src/Glacier/OpenTests.antt =====
-- A directory of two buckets for the theorem on the opening of a write context.
use everarch.Prelude.{ℕ, ◌≡◌, refl, true, none, [], ◌∷◌, ◌++◌, arith}
use everarch.Bytes.{push_be}
use everarch.Files.{give}
use everarch.Glacier.{Glacier, closed, bucket, done, IndexDb, step_done, magic_number, store}
use everarch.Glacier.OpenWrite.{last_bucket_index, open_write_ctx, open_write_ctx_lem}

abbrev no_table : IndexDb ℕ
no_table = record {
  insert_blob = λ db p. (step_done, db);
  insert_bucket = λ db i. (step_done, db);
  update_bucket_end_offset = λ db i n. (step_done, db);
  find_blob = λ db key. none;
}

abbrev directory : Glacier ℕ
directory = record {
  files = store (λ j. none) 2 (magic_number ++ (push_be 4 8 ++ (77 ∷ 78 ∷ [])));
  db = 0;
  fails = [];
  grants = give 0 ∷ give 1 ∷ [];
  max_bucket_size = 1000;
  current_bucket_index = 0;
  current_bucket_f = closed;
  f_pos = 0;
  current_bucket_pos = 0;
  current_bucket_sync = true;
}

open_write_ctx_lem_example :
    (v : Glacier ℕ) × (open_write_ctx no_table ((1 ∷ []) ++ (2 ∷ 1 ∷ [])) directory ≡ done v)
    × (v.current_bucket_f ≡ bucket 2)
    × (v.current_bucket_index ≡ 2)
    × (v.current_bucket_pos ≡ 8)
    × (v.files ≡ directory.files)
    × (v.db ≡ directory.db)
unfolding last_bucket_index
open_write_ctx_lem_example =
    open_write_ctx_lem no_table (1 ∷ []) (1 ∷ []) directory 1 7 (77 ∷ 78 ∷ []) (omega arith, tt)
      (omega arith, tt) refl (omega arith) tt refl
