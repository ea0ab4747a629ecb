-- ===== src/Glacier/Tests.antt =====
-- Concrete buckets and blobs for the theorems on src/glacier.c.
use everarch.Prelude.{
  ℕ, ◌≡◌, refl, true, false, none, List, [], ◌∷◌, ◌++◌, arith, length, replicate, length-append,
  length-replicate,
}
use everarch.Bytes.{push_be}
use everarch.Errors.{Status, ok}
use everarch.Files.{give}
use everarch.Prelude.{append-nil, some, Bool, inr, append_assoc, if◌then◌else◌, ◌==◌}
use everarch.GlacierCmd.{BlobFilter}
use everarch.Glacier.ListBlobs.{
  Row, ListDb, cursor, list_blobs, visit_all, matching, list_blobs-matching,
}
use everarch.Glacier.ReadBlob.{found, read_blob, read_blob_returns}
use everarch.Glacier.{
  Glacier, bucket, IndexDb, BlobPosition, step_done, WritingBlob, magic_number, bucket_header_size,
  chunk_size, store,
}
use everarch.Glacier.WriteBlob.{append_blob, create_next_bucket}
use everarch.Glacier.Frame.{Post, Steady}
use everarch.Glacier.EndOffset.{Holds}
use everarch.Glacier.Chunks.{concat}
use everarch.Glacier.Data.{IsWritable}
use everarch.Glacier.Appended.{Open}
use everarch.Glacier.NextFile.{Kept}
use everarch.Glacier.NextBucket.{NextEnds, create_next_bucket_lem}
use everarch.Glacier.AppendBlob.{AppendEnds, Intact, append_blob_lem}
use everarch.Glacier.Walk.{BlobStat, walk_visited, walk_bucket}
use everarch.Glacier.Walk.Records.{IsStorable, records_bytes, stats, visits, walk_bucket_records}

-- an index database that keeps its rows in a list
abbrev pub table : IndexDb (List BlobPosition)
table = record {
  insert_blob = λ db p. (step_done, p ∷ db);
  insert_bucket = λ db i. (step_done, db);
  update_bucket_end_offset = λ db i n. (step_done, db);
  find_blob = λ db key. none;
}

abbrev empty_bucket : List ℕ
unfolding push_be
empty_bucket = magic_number ++ push_be 4 7 ++ [] ++ []

abbrev start : Glacier (List BlobPosition)
unfolding push_be
start = record {
  files = store (λ j. none) 1 (magic_number ++ push_be 4 7 ++ [] ++ []);
  db = [];
  fails = false ∷ [];
  grants = give 2 ∷ [];
  max_bucket_size = 1000;
  current_bucket_index = 1;
  current_bucket_f = bucket 1;
  f_pos = 0;
  current_bucket_pos = 7;
  current_bucket_sync = true;
}

start-Open : Open 1 [] start
unfolding start
start-Open = record { fd = refl; index = refl; pos = refl; rest = []; file = refl }

start-Steady : Steady 1 start start
unfolding start
start-Steady = record {
  fd = refl;
  pos = refl;
  index = refl;
  max = refl;
  db = refl;
  others = λ j ne. refl;
}

unfoldable pub chunk : List ℕ
chunk = replicate chunk_size 5

length-chunk : length chunk ≡ chunk_size
unfolding chunk
length-chunk = length-replicate {A = ℕ} chunk_size 5

abbrev pub blob : WritingBlob
blob = record {
  key = replicate 28 7;
  flags = 1;
  size = 3;
  sync_per_blob = true;
  chunks = chunk ∷ [];
}

pub blob-IsWritable : IsWritable blob
unfolding concat
blob-IsWritable = (refl, ((length-chunk, tt), omega (arith, length-append chunk [], length-chunk)))

append_blob_lem_example :
    Post (AppendEnds table 1 [] blob 12 start) (Intact 1 [] start) (append_blob table blob 12 start)
append_blob_lem_example = append_blob_lem table 1 [] blob 12 start start-Open blob-IsWritable

create_next_bucket_lem_example :
    Post (NextEnds 1 start table) (Kept start) (create_next_bucket table start)
create_next_bucket_lem_example = create_next_bucket_lem 1 start table start-Open.index

start-Holds : Holds 1 [] start start
unfolding start push_be
start-Holds = record {
  end_bytes = push_be 4 7;
  rest = [];
  four = refl;
  steady = start-Steady;
  file = refl;
}

-- a visitor that collects what it is shown
abbrev collect : List BlobStat → BlobStat → Status × List BlobStat
collect seen stat = (ok, seen ++ (stat ∷ []))

abbrev visit_bucket : List BlobStat → ℕ → Status × List BlobStat
visit_bucket seen end_offset = (ok, seen)

pub blob-IsStorable : IsStorable (blob, 12)
blob-IsStorable = (blob-IsWritable, omega arith)

walk_bucket_records_example :
    walk_bucket collect visit_bucket
      (magic_number ++ push_be 4 52 ++ records_bytes ((blob, 12) ∷ []))
      (give 9 ∷ [])
      []
    ≡ walk_visited
        (λ d. visits collect d (stats bucket_header_size ((blob, 12) ∷ [])))
        (visit_bucket [] 52)
walk_bucket_records_example =
    walk_bucket_records collect visit_bucket ((blob, 12) ∷ []) 52 (give 9 ∷ []) [] (omega arith) tt
      (blob-IsStorable, tt)

abbrev rows : List Row
rows =
    record { key = replicate 28 1; flags = 3; last_modified = 10 }
    ∷ record { key = replicate 28 2; flags = 1; last_modified = 11 }
    ∷ record { key = replicate 28 3; flags = 2; last_modified = 12 }
    ∷ []

abbrev list_table : ListDb ℕ
list_table = record {
  list_order_last_modified = λ db t. cursor rows;
  list_order_blob_ref = λ db t. cursor rows;
}

-- a visitor that collects the rows, and whether each is the last
abbrev collect_row : List (Row × Bool) → Row → Bool → Status × List (Row × Bool)
collect_row seen r last_blob = (ok, seen ++ ((r, last_blob) ∷ []))

abbrev filter : BlobFilter
filter = record { sort_order = 2; flags_filter = 1; last_modified_after = 5 }

list_blobs-matching_example :
    list_blobs collect_row list_table 0 filter []
    ≡ visit_all collect_row [] (matching 1 (if filter.sort_order == 1 then rows else rows))
list_blobs-matching_example =
    list_blobs-matching collect_row list_table 0 filter rows rows [] (omega arith) (inr refl) refl
      refl (refl, (refl, (refl, tt))) (refl, (refl, (refl, tt)))

abbrev agree : List ℕ → Bool → ℕ → ℕ → Status × List ℕ
agree seen exists flags size = (ok, seen)

abbrev take_data : List ℕ → List ℕ → Bool × List ℕ
take_data seen bs = (true, seen ++ bs)

abbrev pub stored : BlobPosition
stored = record {
  key = replicate 28 7;
  flags = 1;
  bucket_index = 4;
  bucket_blob_offset = 7;
  blob_size = 3;
  last_modified = 12;
}

abbrev pub stored_rest : List ℕ
stored_rest = 0 ∷ 0 ∷ 0 ∷ 11 ∷ 8 ∷ 9 ∷ 10 ∷ 99 ∷ []

read_blob_returns_example :
    read_blob agree take_data 3
      (λ i. some (magic_number ++ stored_rest))
      (found stored)
      (give 1 ∷ give 0 ∷ give 0 ∷ [])
      []
    ≡ some (ok, [] ++ (8 ∷ 9 ∷ 10 ∷ []))
read_blob_returns_example =
    read_blob_returns agree take_data (λ c bs. c ++ bs) (λ c bs. refl) (λ c. append-nil c)
      (λ c xs ys. append_assoc c xs ys) 3 (λ i. some (magic_number ++ stored_rest)) stored
      (give 1 ∷ give 0 ∷ give 0 ∷ []) [] [] stored_rest (69 ∷ 86 ∷ 66 ∷ 0 ∷ 0 ∷ 0 ∷ 11 ∷ [])
      (8 ∷ 9 ∷ 10 ∷ []) (99 ∷ []) refl refl refl refl (omega arith) tt refl
