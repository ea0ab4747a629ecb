-- ===== src/GlacierCmd.antt =====
-- The wire format of the glacier protocol: src/glacier-cmd.c and the structs of src/glacier-cmd.h,
-- with the watch record that src/evr-glacier-storage.c writes in `evr_work_watch_blobs` and
-- `evr_flush_list_blobs_ctx`. A parse returns the bytes that follow the structure as well.
pub mod RoundTrip
mod Tests
use everarch.Prelude.{ℕ, ◌+◌, Option, some, List, ◌++◌}
use everarch.Bytes.{push_u8, push_be, pull_u8, pull_be, pull_n, ◌>>=◌}

-- `evr_blob_ref_size` of src/keys.h
abbrev pub blob_ref_size : ℕ
blob_ref_size = 28

pub record CmdHeader : Type 0 where
  pub type : ℕ
  pub body_size : ℕ

abbrev pub cmd_header_n_size : ℕ
cmd_header_n_size = 1 + 4

unfoldable pub parse_cmd_header : List ℕ → Option (CmdHeader × List ℕ)
unfolding pull_u8
parse_cmd_header buffer = do
  (type, at_size) ← pull_u8 buffer
  (body_size, rest) ← pull_be 4 0 at_size
  some (record { type = type; body_size = body_size }, rest)

unfoldable pub format_cmd_header : CmdHeader → List ℕ
unfolding push_u8
format_cmd_header header = push_u8 header.type ++ push_be 4 header.body_size

pub record RespHeader : Type 0 where
  pub status_code : ℕ
  pub body_size : ℕ

abbrev pub resp_header_n_size : ℕ
resp_header_n_size = 1 + 4

unfoldable pub parse_resp_header : List ℕ → Option (RespHeader × List ℕ)
unfolding pull_u8
parse_resp_header buffer = do
  (status_code, at_size) ← pull_u8 buffer
  (body_size, rest) ← pull_be 4 0 at_size
  some (record { status_code = status_code; body_size = body_size }, rest)

unfoldable pub format_resp_header : RespHeader → List ℕ
unfolding push_u8
format_resp_header header = push_u8 header.status_code ++ push_be 4 header.body_size

pub record StatBlobResp : Type 0 where
  pub flags : ℕ
  pub blob_size : ℕ

unfoldable pub parse_stat_blob_resp : List ℕ → Option (StatBlobResp × List ℕ)
unfolding pull_u8
parse_stat_blob_resp buf = do
  (flags, at_size) ← pull_u8 buf
  (blob_size, rest) ← pull_be 4 0 at_size
  some (record { flags = flags; blob_size = blob_size }, rest)

unfoldable pub format_stat_blob_resp : StatBlobResp → List ℕ
unfolding push_u8
format_stat_blob_resp resp = push_u8 resp.flags ++ push_be 4 resp.blob_size

-- `struct evr_blob_filter` of src/glacier.h
pub record BlobFilter : Type 0 where
  pub sort_order : ℕ
  pub flags_filter : ℕ
  pub last_modified_after : ℕ

unfoldable pub parse_blob_filter : List ℕ → Option (BlobFilter × List ℕ)
unfolding pull_u8
parse_blob_filter buf = do
  (sort_order, at_flags) ← pull_u8 buf
  (flags_filter, at_time) ← pull_u8 at_flags
  (last_modified_after, rest) ← pull_be 8 0 at_time
  some (
    record {
      sort_order = sort_order;
      flags_filter = flags_filter;
      last_modified_after = last_modified_after;
    },
    rest,
  )

unfoldable pub format_blob_filter : BlobFilter → List ℕ
unfolding push_u8
format_blob_filter f =
    push_u8 f.sort_order ++ (push_u8 f.flags_filter ++ push_be 8 f.last_modified_after)

pub record WatchBlobsBody : Type 0 where
  pub key : List ℕ
  pub last_modified : ℕ
  pub flags : ℕ

unfoldable pub parse_watch_blobs_body : List ℕ → Option (WatchBlobsBody × List ℕ)
unfolding pull_u8
parse_watch_blobs_body buf = do
  (key, at_time) ← pull_n blob_ref_size buf
  (last_modified, at_flags) ← pull_be 8 0 at_time
  (flags, rest) ← pull_u8 at_flags
  some (record { key = key; last_modified = last_modified; flags = flags }, rest)

-- What the server writes for each watched blob.
unfoldable pub format_watch_blobs_body : WatchBlobsBody → List ℕ
unfolding push_u8
format_watch_blobs_body b = b.key ++ (push_be 8 b.last_modified ++ push_u8 b.flags)
