-- ===== src/Server/Commands.antt =====
-- The handlers of the commands in src/evr-glacier-storage.c that get, put and stat a blob, configure the
-- connection, or are unknown.
use everarch.Prelude.{
  ℕ, ◌+◌, ◌-◌, ◌%◌, Bool, true, false, ◌||◌, Option, none, some, List, ◌++◌, if◌then◌else◌, ◌==◌,
  ltb, get_or,
}
use everarch.Errors.{Status, ok, error, not_found}
use everarch.Bytes.{u64, push_u8}
use everarch.Files.{Sink, write_n}
use everarch.Keys.TinySet.{ref_eq}
use everarch.Glacier.{WritingBlob}
use everarch.Glacier.ReadBlob.{stat_blob, read_blob}
use everarch.GlacierCmd.{CmdHeader, blob_ref_size, format_resp_header, format_stat_blob_resp}
use everarch.Exec.{Exec, ◌>>=◌, ◌>>◌, give_up}
use everarch.Server.Actions.{World, Store, guard, recv, send, dump, recv_chunks, on_glacier}
use everarch.Server.Watch.{ensure_worker_rctx_exists}

-- `evr_max_blob_data_size`
abbrev pub max_blob_data_size : ℕ
max_blob_data_size = 16777216

-- `sizeof(evr_auth_token)`
abbrev pub auth_token_size : ℕ
auth_token_size = 32

-- a response with the given status and no body
unfoldable pub empty_resp : ℕ → List ℕ
unfolding format_resp_header
empty_resp status_code = format_resp_header (record { status_code = status_code; body_size = 0 })

abbrev pub written : Status × Sink → Status × Sink
written (ok, f) = (ok, f)
written (_, f) = (error, f)

unfoldable pub send_get_response : Sink → Bool → ℕ → ℕ → Status × Sink
unfolding write_n format_resp_header push_u8 empty_resp
send_get_response f true flags blob_size = written (
    write_n f (
      format_resp_header (record { status_code = 32; body_size = 1 + blob_size }) ++ push_u8 flags))
send_get_response f false flags blob_size = written (write_n f (empty_resp 69))

abbrev pub piped : Status × Sink → Bool × Sink
piped (ok, f) = (true, f)
piped (_, f) = (false, f)

unfoldable pub pipe_data : Sink → List ℕ → Bool × Sink
unfolding write_n
pipe_data f bs = piped (write_n f bs)

-- `evr_sync_strategy_default` is 0, `per_blob` 1 and `avoid` 2.
abbrev pub known_strategy : ℕ → ℕ
known_strategy s = if s == 0 || s == 1 || s == 2 then s else 0

module _ {G : Type 0} where
  unfoldable pub work_unknown_cmd : CmdHeader → Exec (World G) (Unit {0})
  unfolding dump send empty_resp
  work_unknown_cmd cmd = do dump cmd.body_size; send (empty_resp 7)

  unfoldable pub work_configure_connection : CmdHeader → Exec (World G) (Unit {0})
  unfolding recv send empty_resp
  work_configure_connection cmd =
      if ltb cmd.body_size 1 || ltb 512 cmd.body_size then give_up else do
        buf ← recv cmd.body_size
        (λ w. send (empty_resp 32) (record w { sync_strategy = known_strategy (get_or buf 0 0) }))

module _ {G : Type 0} (st : Store G) where
  abbrev pub stat_response : Status × Option (ℕ × ℕ) → Exec (World G) (Unit {0})
  stat_response (not_found, _) = send (empty_resp 69)
  stat_response (ok, some (flags, blob_size)) = send (
      format_resp_header (record { status_code = 32; body_size = 5 })
      ++ format_stat_blob_resp (record { flags = flags; blob_size = blob_size }))
  stat_response _ = give_up

  unfoldable pub work_stat_blob : CmdHeader → Exec (World G) (Unit {0})
  unfolding recv send ensure_worker_rctx_exists stat_blob format_resp_header format_stat_blob_resp
      empty_resp
  work_stat_blob cmd =
      if cmd.body_size == blob_ref_size
      then (do
        key ← recv blob_ref_size
        ensure_worker_rctx_exists st
        (λ w. stat_response (stat_blob (st.find_blob w.glacier key)) w))
      else give_up

  -- `none` is a read that ran out of fuel, which enough fuel rules out; its output is dropped.
  abbrev pub sent_blob : World G → Option (Status × Sink) → Option (Unit {0}) × World G
  sent_blob w none = (none, w)
  sent_blob w (some (ok, f)) = (some tt, record w { output = f })
  sent_blob w (some (not_found, f)) = (some tt, record w { output = f })
  sent_blob w (some (_, f)) = (none, record w { output = f })

  -- The case `evr_cmd_type_get_blob` of the worker. `fuel` bounds the reads of the blob; a worker
  -- that goes on reading for longer sends nothing more.
  unfoldable pub work_get_blob : ℕ → CmdHeader → Exec (World G) (Unit {0})
  unfolding recv ensure_worker_rctx_exists read_blob send_get_response pipe_data
  work_get_blob fuel cmd =
      if cmd.body_size == blob_ref_size
      then (do
        key ← recv blob_ref_size
        ensure_worker_rctx_exists st
        (λ w. sent_blob w (
            read_blob send_get_response pipe_data fuel (st.buckets w.glacier)
              (st.find_blob w.glacier key) (st.bucket_grants w.glacier) w.output)))
      else give_up

  -- the label `out_destroy_task`
  abbrev pub task_destroyed : Option (Unit {0}) × World G → Option (Unit {0}) × World G
  task_destroyed (res, w) = if st.destroy_task w.glacier then (res, w) else (none, w)

  abbrev pub task_done : Status → Exec (World G) (Unit {0})
  task_done ok = send (empty_resp 32)
  task_done _ = give_up

  -- from evr_persister_queue_task to the response
  abbrev pub run_task : WritingBlob → Exec (World G) (Unit {0})
  run_task wblob = do
    on_glacier (λ g. st.queue_task g wblob)
    on_glacier st.wait_for_task
    (λ w. task_done (st.task_result w.glacier) w)

  abbrev pub writing_blob : List ℕ → List ℕ → ℕ → List (List ℕ) → ℕ → WritingBlob
  writing_blob key flags size chunks sync_strategy = record {
    key = key;
    flags = get_or flags 0 0;
    size = size;
    sync_per_blob = sync_strategy == 0 || sync_strategy == 1;
    chunks = chunks;
  }

  -- what follows when the blob's bytes are read
  unfoldable pub store_blob :
      List ℕ → List ℕ → ℕ → List (List ℕ) × List ℕ → Exec (World G) (Unit {0})
  unfolding send ref_eq empty_resp
  store_blob key flags size (chunks, hd) =
      if ref_eq (st.hash hd) key
      then (do
        guard st.init_task
        (λ w. task_destroyed (run_task (writing_blob key flags size chunks w.sync_strategy) w)))
      else give_up

  -- The size of the blob is computed on a size_t.
  unfoldable pub work_put_blob : CmdHeader → Exec (World G) (Unit {0})
  unfolding recv recv_chunks store_blob
  work_put_blob cmd =
      let blob_size = (cmd.body_size + u64 - (blob_ref_size + 1)) % u64 in
      if ltb cmd.body_size blob_ref_size
      then give_up
      else if ltb max_blob_data_size blob_size
      then give_up
      else do
        key ← recv blob_ref_size
        flags ← recv 1
        guard st.blob_ref_open
        blob ← recv_chunks st blob_size
        store_blob key flags blob_size blob
