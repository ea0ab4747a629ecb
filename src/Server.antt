-- ===== src/Server.antt =====
-- The worker of one connection in src/evr-glacier-storage.c: authentication and the commands that
-- get, put and stat a blob and configure the connection. Server.Watch has the command that watches.
pub mod Actions
pub mod Commands
pub mod Listing
pub mod ListRows
mod Handlers
mod Blobs
mod Dispatch
pub mod Refuse
pub mod Checked
mod Tests
pub mod Serve
pub mod Requests
mod Steps
pub mod Watch
use everarch.Prelude.{
  ℕ, zero, suc, ◌+◌, ◌-◌, ◌%◌, Bool, true, false, ◌||◌, ◌&&◌, Option, none, some, List, [], ◌∷◌,
  ◌++◌, if◌then◌else◌, ◌==◌, ltb, get_or, drop,
}
use everarch.Errors.{Status, ok, error, end, not_found, user_data_invalid}
use everarch.Bytes.{u64, push_u8}
use everarch.Files.{Grant, Source, Sink, Read, read_n, none_se, write_n}
use everarch.Keys.TinySet.{ref_eq}
use everarch.Glacier.{WritingBlob}
use everarch.Glacier.ReadBlob.{Lookup, stat_blob, read_blob}
use everarch.GlacierCmd.{
  CmdHeader, RespHeader, StatBlobResp, blob_ref_size, cmd_header_n_size, parse_cmd_header,
  format_resp_header, format_stat_blob_resp,
}
use everarch.Exec.{Exec, ◌>>=◌, ◌>>◌, give_up}
use everarch.Server.Actions.{World, Store, guard, recv, send, dump, recv_chunks, on_glacier}
use everarch.Server.Watch.{ensure_worker_rctx_exists, work_watch_blobs}
use everarch.Server.Commands.{
  max_blob_data_size, auth_token_size, empty_resp, written, send_get_response, piped, pipe_data,
  known_strategy, work_unknown_cmd, work_configure_connection, stat_response, work_stat_blob,
  sent_blob, work_get_blob, task_destroyed, task_done, run_task, writing_blob, store_blob,
  work_put_blob,
}

module _ {G : Type 0} (st : Store G) where
  abbrev pub and_go_on : Bool → Exec (World G) (Unit {0}) → Exec (World G) Bool
  and_go_on more m = do m; (λ w. (some more, w))

  -- the switch over the command's type, which says whether the loop goes on
  unfoldable pub work_cmd : ℕ → CmdHeader → Exec (World G) Bool
  unfolding work_get_blob work_put_blob work_stat_blob work_watch_blobs work_configure_connection
      work_unknown_cmd
  work_cmd fuel cmd =
      if cmd.type == 1
      then and_go_on true (work_get_blob st fuel cmd)
      else if cmd.type == 2
      then and_go_on true (work_put_blob st cmd)
      else if cmd.type == 3
      then and_go_on true (work_stat_blob st cmd)
      else if cmd.type == 4
      then and_go_on false (work_watch_blobs st cmd)
      else if cmd.type == 5
      then and_go_on true (work_configure_connection cmd)
      else and_go_on true (work_unknown_cmd cmd)

  abbrev pub cmd_worked : (World G → Status × World G) → Option Bool × World G → Status × World G
  cmd_worked recur (none, w) = (error, w)
  cmd_worked recur (some false, w) = (ok, w)
  cmd_worked recur (some true, w) = recur w

  abbrev pub header_parsed :
      ℕ → (World G → Status × World G) → Option (CmdHeader × List ℕ) → World G → Status × World G
  header_parsed fuel recur none w = (error, w)
  header_parsed fuel recur (some (cmd, rest)) w = cmd_worked recur (work_cmd fuel cmd w)

  abbrev pub header_read :
      ℕ → (World G → Status × World G) → World G → Read ℕ → Status → Status × World G
  header_read fuel recur w r end = (ok, record w { input = r.source })
  header_read fuel recur w r ok =
      header_parsed fuel recur (parse_cmd_header r.buffer) (record w { input = r.source })
  header_read fuel recur w r _ = (error, record w { input = r.source })

  -- The loop of `evr_connection_worker`, which finds `running` set as often as the second argument
  -- says. The other threads work while it waits for a header.
  unfoldable pub worker_loop : ℕ → ℕ → World G → Status × World G
  unfolding read_n work_cmd parse_cmd_header
  worker_loop fuel zero w = (ok, w)
  worker_loop fuel (suc rounds) w =
      let r = read_n {C = ℕ} none_se w.input cmd_header_n_size 0 in
      header_read fuel (worker_loop fuel rounds) (record w { glacier = st.others w.glacier }) r
        r.status

  -- `evr_authenticate_client`: ok, `user_data_invalid`, or error where the read fails
  abbrev pub auth_read : List ℕ → World G → Read ℕ → Status → Status × World G
  auth_read token w r ok = (
    if get_or r.buffer 0 0 == 1 && ref_eq token (drop 1 r.buffer) then ok else user_data_invalid,
    record w { input = r.source },
  )
  auth_read token w r _ = (error, record w { input = r.source })

  unfoldable pub authenticate_client : List ℕ → World G → Status × World G
  unfolding read_n ref_eq
  authenticate_client token w =
      let r = read_n {C = ℕ} none_se w.input (1 + auth_token_size) 0 in auth_read token w r r.status

  -- the labels `out_with_free_rctx` and `out_with_close_socket`
  abbrev pub rctx_freed : Status × World G → Status × World G
  rctx_freed (res, w) =
      if w.rctx then (if st.free_read_ctx w.glacier then (res, w) else (error, w)) else (res, w)

  abbrev pub socket_closed : Status × World G → Status × World G
  socket_closed (res, w) = if st.close_socket w.glacier then (res, w) else (error, w)

  abbrev pub authorized : (World G → Status × World G) → Status × World G → Status × World G
  authorized loop (ok, w) = socket_closed (rctx_freed (loop w))
  authorized loop (user_data_invalid, w) = socket_closed (ok, w)
  authorized loop (_, w) = socket_closed (error, w)

  -- `cfg->auth_token` is the argument `token`.
  unfoldable pub connection_worker : ℕ → List ℕ → ℕ → World G → Status × World G
  unfolding worker_loop authenticate_client
  connection_worker fuel token rounds w =
      authorized (worker_loop fuel rounds) (authenticate_client token w)
