-- ===== src/Server/Actions.antt =====
-- What a connection's worker of src/evr-glacier-storage.c works on, and the steps that its handlers
-- are made of.
use everarch.Prelude.{ℕ, Bool, Option, none, some, List, [], if◌then◌else◌}
use everarch.Exec.{Exec}
use everarch.Errors.{Status, ok}
use everarch.Files.{Grant, Source, Sink, Read, read_n, none_se, write_n}
use everarch.Files.Pipe.{dump_n}
use everarch.ChunkSet.{IntoChunks, read_into_chunks}
use everarch.Glacier.{WritingBlob, chunk_size}
use everarch.Glacier.ReadBlob.{Lookup}
use everarch.Glacier.ListBlobs.{ListDb}
use everarch.Glacier.Reindex.{blob_ref_write_se}
use everarch.GlacierCmd.{WatchBlobsBody}

-- One round of the loop of a live watch: whether the peer shuts down, what evr_queue_take gives until
-- it finds nothing (`none` where it fails), and what evr_peer_hang_up gives unless `running` was
-- cleared before.
pub record Round : Type 0 where
  pub received_shutdown : Bool
  pub taken : List (Option WatchBlobsBody)
  pub hang_up : Option Status

-- What the worker calls outside of its connection, over a state `G` that is the glacier, the
-- persister and the memory. `others` is what other threads do while the worker waits for a command.
pub record Store (G : Type 0) : Type 0 where
  pub others : G → G
  pub create_read_ctx : G → Bool
  pub find_blob : G → List ℕ → Lookup
  pub buckets : G → ℕ → Option (List ℕ)
  pub bucket_grants : G → List Grant
  pub list_db : ListDb G
  pub hash : List ℕ → List ℕ
  pub blob_ref_open : G → Bool
  pub allocate_chunk_set : G → ℕ → Bool
  pub init_task : G → Bool
  pub queue_task : G → WritingBlob → Status × G
  pub wait_for_task : G → Status × G
  pub task_result : G → Status
  pub destroy_task : G → Bool
  pub add_watcher : G → Bool
  pub rm_watcher : G → Bool
  pub rounds : G → List Round
  pub free_read_ctx : G → Bool
  pub close_socket : G → Bool

-- `struct evr_connection` with the worker's read context, which is there once it was created, and
-- what stands outside
pub record World (G : Type 0) : Type 0 where
  pub input : Source
  pub output : Sink
  pub sync_strategy : ℕ
  pub rctx : Bool
  pub glacier : G

module _ {G : Type 0} where
  abbrev pub guard : (G → Bool) → Exec (World G) (Unit {0})
  guard test w = if test w.glacier then (some tt, w) else (none, w)

  abbrev pub received : World G → Read ℕ → Status → Option (List ℕ) × World G
  received w r ok = (some r.buffer, record w { input = r.source })
  received w r _ = (none, record w { input = r.source })

  -- `if(read_n(&ctx->socket, …) != evr_ok) goto out`
  unfoldable pub recv : ℕ → Exec (World G) (List ℕ)
  unfolding read_n
  recv n w = let r = read_n {C = ℕ} none_se w.input n 0 in received w r r.status

  -- `if(dump_n(&ctx->socket, …) != evr_ok) goto out`
  unfoldable pub dump : ℕ → Exec (World G) (List ℕ)
  unfolding dump_n
  dump n w = let r = dump_n {C = ℕ} none_se w.input n 0 in received w r r.status

  abbrev pub send_done : World G → Status × Sink → Option (Unit {0}) × World G
  send_done w (ok, f) = (some tt, record w { output = f })
  send_done w (_, f) = (none, record w { output = f })

  -- `if(write_n(&ctx->socket, …) != evr_ok) goto out`
  unfoldable pub send : List ℕ → Exec (World G) (Unit {0})
  unfolding write_n
  send buf w = send_done w (write_n w.output buf)

  abbrev pub chunks_received :
      World G
      → IntoChunks (List ℕ)
      → Option (List (List ℕ))
      → Option (List (List ℕ) × List ℕ) × World G
  chunks_received w r none = (none, record w { input = r.source })
  chunks_received w r (some chunks) = (some (chunks, r.ctx), record w { input = r.source })

  -- `read_into_chunks` with a hash handle: the chunks and the bytes that were hashed
  unfoldable pub recv_chunks : Store G → ℕ → Exec (World G) (List (List ℕ) × List ℕ)
  unfolding read_into_chunks blob_ref_write_se
  recv_chunks st size w =
      let r =
        read_into_chunks blob_ref_write_se chunk_size (st.allocate_chunk_set w.glacier size) w.input
          size [] in
      chunks_received w r r.chunks

  abbrev pub glacier_next : World G → Status × G → Option (Unit {0}) × World G
  glacier_next w (ok, g) = (some tt, record w { glacier = g })
  glacier_next w (_, g) = (none, record w { glacier = g })

  -- a call that changes what stands outside, and must return evr_ok
  abbrev pub on_glacier : (G → Status × G) → Exec (World G) (Unit {0})
  on_glacier call w = glacier_next w (call w.glacier)
