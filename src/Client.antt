-- ===== src/Client.antt =====
-- The client's side of the glacier protocol in src/evr-glacier-client.c: requests for a blob and the
-- reading of the answer. What the functions need of a connection is the record Link.
pub mod Fetch
pub mod AtOnce
mod Tests
use everarch.Prelude.{
  ℕ, zero, suc, ◌+◌, ◌-◌, Bool, true, false, ◌||◌, Option, none, some, List, [], ◌∷◌, ◌++◌, ltb,
  if◌then◌else◌,
}
use everarch.Exec.{Exec, ◌>>=◌, ◌>>◌, give_up}
use everarch.Keys.TinySet.{ref_eq}
use everarch.GlacierCmd.{
  RespHeader, blob_ref_size, resp_header_n_size, parse_resp_header, format_cmd_header,
}
use everarch.Server.Commands.{max_blob_data_size}

-- `struct evr_file` as read_n, write_n and dump_n of src/files.c use it: each call with whether it
-- returns evr_ok, and the connection behind it.
pub record Link (C : Type 0) : Type 0 where
  pub read_n : C → ℕ → Option (List ℕ) × C
  pub write_n : C → List ℕ → Bool × C
  pub dump_n : C → ℕ → Bool × C

module _ {C : Type 0} where
  abbrev pub unless : Bool → Exec C (Unit {0})
  unless failed c = if failed then (none, c) else (some tt, c)

  abbrev pub must : Bool × C → Option (Unit {0}) × C
  must (true, c) = (some tt, c)
  must (false, c) = (none, c)

module _ {C : Type 0} (link : Link C) where
  abbrev pub dump_over : ℕ → Exec C (Unit {0})
  dump_over n c = must (link.dump_n c n)

  unfoldable pub write_cmd_get_blob : List ℕ → Exec C (Unit {0})
  write_cmd_get_blob key c =
      must
        (link.write_n c (format_cmd_header (record { type = 1; body_size = blob_ref_size }) ++ key))

  abbrev pub resp_read : Option (RespHeader × List ℕ) → Exec C RespHeader
  resp_read none c = give_up c
  resp_read (some (resp, rest)) c = (some resp, c)

  unfoldable pub read_resp_header : Exec C RespHeader
  unfolding parse_resp_header
  read_resp_header = do
    buf ← (λ c. link.read_n c resp_header_n_size)
    resp_read (parse_resp_header buf)

  unfoldable pub req_cmd_get_blob : List ℕ → Exec C RespHeader
  unfolding write_cmd_get_blob read_resp_header
  req_cmd_get_blob key = do
    write_cmd_get_blob key
    resp ← read_resp_header
    unless (ltb max_blob_data_size resp.body_size)
    (λ c. (some resp, c))

  -- The bytes behind the flags, if their hash is the ref; `allocated` and `opened` say whether malloc
  -- and evr_blob_ref_open succeed.
  unfoldable pub read_cmd_get_resp_blob :
      (List ℕ → List ℕ) → Bool → Bool → ℕ → List ℕ → Exec C (List ℕ)
  unfolding ref_eq
  read_cmd_get_resp_blob hash allocated opened resp_body_size expected_ref =
      if ltb resp_body_size 1 || ltb (max_blob_data_size + 1) resp_body_size then give_up else do
        (λ c. link.read_n c 1)
        unless (if allocated then false else true)
        unless (if opened then false else true)
        buf ← (λ c. link.read_n c (resp_body_size - 1))
        unless (if ref_eq (hash buf) expected_ref then false else true)
        (λ c. (some buf, c))
