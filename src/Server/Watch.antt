-- ===== src/Server/Watch.antt =====
-- `evr_work_watch_blobs` of src/evr-glacier-storage.c: the listed blobs are sent in packets, and then,
-- if the client watches for changes, those that are put.
use everarch.Prelude.{
  ℕ, Bool, true, false, Option, none, some, List, [], ◌∷◌, ◌++◌, if◌then◌else◌, ◌==◌, length,
}
use everarch.Errors.{Status, ok, error}
use everarch.Files.{Sink, write_n}
use everarch.Glacier.ListBlobs.{Row, list_blobs}
use everarch.GlacierCmd.{
  CmdHeader, BlobFilter, WatchBlobsBody, parse_blob_filter, format_resp_header,
  format_watch_blobs_body,
}
use everarch.Exec.{Exec, ◌>>=◌, ◌>>◌, bind_next, give_up}
use everarch.Server.Actions.{World, Store, Round, guard, recv, send}

-- `evr_list_blobs_blobs_len`
abbrev pub list_blobs_blobs_len : ℕ
list_blobs_blobs_len = 27

-- `struct evr_list_blobs_ctx`; the list is the first `blobs_used` entries of `blobs`
pub record ListBlobsCtx : Type 0 where
  pub connection : Sink
  pub blobs : List WatchBlobsBody

unfoldable pub format_blobs : List WatchBlobsBody → List ℕ
format_blobs [] = []
format_blobs (b ∷ bs) = format_watch_blobs_body b ++ format_blobs bs

abbrev pub flushed : ListBlobsCtx → Status × Sink → Status × ListBlobsCtx
flushed ctx (ok, f) = (ok, record { connection = f; blobs = [] })
flushed ctx (_, f) = (error, record ctx { connection = f })

abbrev pub flush_blobs : ListBlobsCtx → List WatchBlobsBody → Status × ListBlobsCtx
flush_blobs ctx [] = (ok, ctx)
flush_blobs ctx (b ∷ bs) = flushed ctx (write_n ctx.connection (format_blobs (b ∷ bs)))

-- `evr_flush_list_blobs_ctx`
unfoldable pub flush_list_blobs_ctx : ListBlobsCtx → Status × ListBlobsCtx
unfolding format_blobs
flush_list_blobs_ctx ctx = flush_blobs ctx ctx.blobs

abbrev pub listed : Row → Bool → WatchBlobsBody
listed r last_blob = record {
  key = r.key;
  last_modified = r.last_modified;
  flags = if last_blob then 1 else 0;
}

abbrev pub list_entry : WatchBlobsBody → Status × ListBlobsCtx → Status × ListBlobsCtx
list_entry b (ok, ctx) = (ok, record ctx { blobs = ctx.blobs ++ (b ∷ []) })
list_entry b (_, ctx) = (error, ctx)

-- `evr_handle_blob_list`
unfoldable pub handle_blob_list : ListBlobsCtx → Row → Bool → Status × ListBlobsCtx
unfolding flush_list_blobs_ctx
handle_blob_list ctx r last_blob =
    list_entry (listed r last_blob)
      (if length ctx.blobs == list_blobs_blobs_len then flush_list_blobs_ctx ctx else (ok, ctx))

module _ {G : Type 0} where
  -- the inner loop of a live watch: the entries are sent until there is none
  unfoldable pub send_taken : List (Option WatchBlobsBody) → Exec (World G) (Unit {0})
  send_taken [] w = (some tt, w)
  send_taken (none ∷ taken) w = (none, w)
  send_taken (some b ∷ taken) w =
      bind_next (λ _. send_taken taken) (send (format_watch_blobs_body (record b { flags = 1 })) w)

  abbrev pub hung_up : Exec (World G) (Unit {0}) → Option Status → Exec (World G) (Unit {0})
  hung_up next none w = (some tt, w)
  hung_up next (some ok) w = next w
  hung_up next (some _) w = (none, w)

  -- the outer loop, until `running` is cleared
  unfoldable pub live_watch : List Round → Exec (World G) (Unit {0})
  unfolding send_taken
  live_watch [] w = (some tt, w)
  live_watch (r ∷ rounds) w =
      if r.received_shutdown
      then (none, w)
      else bind_next (λ _. hung_up (live_watch rounds) r.hang_up) (send_taken r.taken w)

module _ {G : Type 0} (st : Store G) where
  -- `evr_ensure_worker_rctx_exists`
  unfoldable pub ensure_worker_rctx_exists : Exec (World G) (Unit {0})
  ensure_worker_rctx_exists w =
      if w.rctx
      then (some tt, w)
      else if st.create_read_ctx w.glacier
      then (some tt, record w { rctx = true })
      else (none, w)

  abbrev pub list_sent : World G → Status × ListBlobsCtx → Option (Unit {0}) × World G
  list_sent w (ok, ctx) = (some tt, record w { output = ctx.connection })
  list_sent w (_, ctx) = (none, record w { output = ctx.connection })

  abbrev pub list_flushed : World G → Status × ListBlobsCtx → Option (Unit {0}) × World G
  list_flushed w (ok, ctx) = list_sent w (flush_list_blobs_ctx ctx)
  list_flushed w (_, ctx) = (none, record w { output = ctx.connection })

  -- the call of evr_glacier_list_blobs and the flush behind it
  unfoldable pub send_list : BlobFilter → Exec (World G) (Unit {0})
  unfolding list_blobs handle_blob_list flush_list_blobs_ctx
  send_list f w = list_flushed w (
      list_blobs handle_blob_list st.list_db w.glacier f
        (record { connection = w.output; blobs = [] }))

  abbrev pub watcher_removed : Option (Unit {0}) × World G → Option (Unit {0}) × World G
  watcher_removed (res, w) = if st.rm_watcher w.glacier then (res, w) else (none, w)

  -- what follows the choice between a live watch and a list only
  abbrev pub watch_listed : BlobFilter → Bool → Exec (World G) (Unit {0})
  watch_listed f false w = (do ensure_worker_rctx_exists; send_list f) w
  watch_listed f true w =
      bind_next
        (λ _ v. watcher_removed (
          (do ensure_worker_rctx_exists; send_list f; (λ u. live_watch (st.rounds u.glacier) u)) v))
        (guard st.add_watcher w)

  abbrev pub watch_parsed : Option (BlobFilter × List ℕ) → Exec (World G) (Unit {0})
  watch_parsed none = give_up
  watch_parsed (some (f, rest)) = do
    send (format_resp_header (record { status_code = 32; body_size = 0 }))
    watch_listed f (f.sort_order == 1)

  -- `evr_blob_filter_n_size` is 10.
  unfoldable pub work_watch_blobs : CmdHeader → Exec (World G) (Unit {0})
  unfolding recv send live_watch ensure_worker_rctx_exists send_list parse_blob_filter
      format_resp_header
  work_watch_blobs cmd =
      if cmd.body_size == 10
      then (do buf ← recv 10; watch_parsed (parse_blob_filter buf))
      else give_up
