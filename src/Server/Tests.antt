-- ===== src/Server/Tests.antt =====
-- Runs of the worker of src/evr-glacier-storage.c over a store that holds blobs in a list.
use everarch.Prelude.{
  ℕ, ◌+◌, ◌≤◌, ◌==◌, All, if◌then◌else◌, ◌≡◌, ◌≢◌, ◌⊎◌, refl, sym, ap, true, false, Option, none,
  some, List, [], ◌∷◌, ◌++◌, append-nil, arith, length, take, replicate, get_or,
}
use everarch.Errors.{ok}
use everarch.Files.{give, Source, Sink}
use everarch.Keys.TinySet.{ref_eq}
use everarch.Glacier.{BlobPosition, magic_number}
use everarch.Glacier.Chunks.{concat}
use everarch.Glacier.ListBlobs.{Row, cursor, matching}
use everarch.Glacier.ReadBlob.{Lookup, found, missing}
use everarch.GlacierCmd.{BlobFilter, format_blob_filter, format_resp_header}
use everarch.Server.{connection_worker}
use everarch.Server.Commands.{max_blob_data_size, work_put_blob}
use everarch.Server.Actions.{World, Store}
use everarch.Server.Watch.{work_watch_blobs, format_blobs}
use everarch.Server.Steps.{Holds, Wrote}
use everarch.Server.Requests.{
  Request, get_blob, put_blob, stat_blob, configure_connection, unknown, format_requests,
}
use everarch.Server.Listing.{watch_blobs_lists}
use everarch.Server.ListRows.{entries}
use everarch.Server.Refuse.{Untouched, unauthorized_refused}
use everarch.Server.Checked.{Refused, Stored, put_blob_checked}

-- flags and bytes of a blob, and the blobs that are held, the last one first
abbrev Slot : Type 0
Slot = Option (ℕ × List ℕ)

abbrev Blobs : Type 0
Blobs = List (List ℕ × (ℕ × List ℕ))

abbrev the_key : List ℕ
the_key = replicate 28 7

abbrev token : List ℕ
token = replicate 32 9

unfoldable held : Blobs → List ℕ → Slot
held [] key = none
held ((k, blob) ∷ g) key = if ref_eq k key then some blob else held g key

-- Each blob has a bucket of its own.
abbrev position : ℕ → List ℕ → ℕ × List ℕ → BlobPosition
position i key (flags, body) = record {
  key = key;
  flags = flags;
  bucket_index = i;
  bucket_blob_offset = 3;
  blob_size = length body;
  last_modified = 0;
}

unfoldable find : Blobs → List ℕ → Lookup
find [] key = missing
find ((k, blob) ∷ g) key = if ref_eq k key then found (position (length g) key blob) else find g key

unfoldable files : Blobs → ℕ → Option (List ℕ)
files [] i = none
files ((k, blob) ∷ g) i = if length g == i then some (magic_number ++ blob.1) else files g i

abbrev add_new : Blobs → List ℕ → ℕ × List ℕ → Slot → Blobs
add_new g key blob none = (key, blob) ∷ g
add_new g key blob (some first) = g

-- a blob that other threads put
abbrev foreign : List ℕ × (ℕ × List ℕ)
foreign = (replicate 28 200, (1, 5 ∷ []))

abbrev rows : List Row
rows =
    record { key = replicate 28 1; flags = 1; last_modified = 4 }
    ∷ record { key = replicate 28 2; flags = 0; last_modified = 5 }
    ∷ record { key = replicate 28 3; flags = 3; last_modified = 6 }
    ∷ []

abbrev small_store : Store Blobs
small_store = record {
  others = λ g. foreign ∷ g;
  create_read_ctx = λ _. true;
  find_blob = λ g key. find g key;
  buckets = λ g i. files g i;
  bucket_grants = λ _. give 0 ∷ give 1 ∷ [];
  list_db = record {
    list_order_last_modified = λ _ _. cursor [];
    list_order_blob_ref = λ _ _. cursor rows;
  };
  hash = λ bs. replicate 28 (4 + get_or bs 0 0);
  blob_ref_open = λ _. true;
  allocate_chunk_set = λ _ _. true;
  init_task = λ _. true;
  queue_task =
      λ g blob. (ok, add_new g blob.key (blob.flags, concat blob.chunks) (held g blob.key));
  wait_for_task = λ g. (ok, g);
  task_result = λ _. ok;
  destroy_task = λ _. true;
  add_watcher = λ _. true;
  rm_watcher = λ _. true;
  rounds = λ _. [];
  free_read_ctx = λ _. true;
  close_socket = λ _. true;
}

abbrev IsSmall : Blobs → Type 0
IsSmall g = All (λ e. length e.1.1 ≤ max_blob_data_size) g

abbrev talk : List Request
talk =
    stat_blob the_key
    ∷ configure_connection 2 []
    ∷ put_blob the_key 6 (3 ∷ 4 ∷ [])
    ∷ unknown 77 (1 ∷ 2 ∷ 3 ∷ [])
    ∷ get_blob the_key
    ∷ []

-- a client that sends these bytes, of which the worker gets a few at a time
abbrev client : List ℕ → World Blobs
client bytes = record {
  input = record { bytes = bytes; grants = give 0 ∷ give 20 ∷ give 3 ∷ give 11 ∷ [] };
  output = record { out = []; grants = give 2 ∷ give 0 ∷ [] };
  sync_strategy = 0;
  rctx = false;
  glacier = [];
}

-- the last byte of the token is wrong
abbrev intruder : World Blobs
intruder = client ((1 ∷ replicate 31 9 ++ (8 ∷ [])) ++ format_requests talk)

wrong_token : take 33 intruder.input.bytes ≢ 1 ∷ token
wrong_token e = absurd (omega (arith, ap (λ x. get_or x 32 0) e))

unauthorized_refused_example :
    Untouched small_store intruder (connection_worker small_store 100 token 7 intruder).1
unauthorized_refused_example = unauthorized_refused small_store 100 7 token intruder wrong_token

put_blob_checked_example :
    Refused small_store (client (the_key ++ (6 ∷ 3 ∷ 4 ∷ []))) (
      work_put_blob small_store
        (record { type = 2; body_size = 31 })
        (client (the_key ++ (6 ∷ 3 ∷ 4 ∷ []))))
    ⊎ Stored small_store
        (client (the_key ++ (6 ∷ 3 ∷ 4 ∷ [])))
        (record { type = 2; body_size = 31 })
        (work_put_blob small_store
          (record { type = 2; body_size = 31 })
          (client (the_key ++ (6 ∷ 3 ∷ 4 ∷ []))))
put_blob_checked_example =
    put_blob_checked small_store (client (the_key ++ (6 ∷ 3 ∷ 4 ∷ [])))
      (record { type = 2; body_size = 31 }) (omega arith)

abbrev by_ref : BlobFilter
by_ref = record { sort_order = 2; flags_filter = 1; last_modified_after = 3 }

watch_blobs_lists_example :
    (i : Source) × (x : Sink) × (work_watch_blobs small_store
        (record { type = 4; body_size = 10 })
        (client (format_blob_filter by_ref))
      ≡ (
        some tt,
        record (client (format_blob_filter by_ref)) { input = i; output = x; rctx = true },
      ))
    × Holds i []
    × Wrote
        (client (format_blob_filter by_ref)).output
        (format_resp_header (record { status_code = 32; body_size = 0 })
          ++ format_blobs (entries (matching 1 rows)))
        x
watch_blobs_lists_example =
    watch_blobs_lists small_store by_ref rows [] (client (format_blob_filter by_ref)) refl
      (omega arith) (omega arith) (sym (append-nil (format_blob_filter by_ref)), tt) tt refl refl
      (refl, (refl, (refl, tt)))
