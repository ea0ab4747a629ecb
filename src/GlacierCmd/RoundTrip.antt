-- ===== src/GlacierCmd/RoundTrip.antt =====
-- Each structure of the protocol is read back as it was written, cut to the width of its fields.
use everarch.Prelude.{ℕ, ◌%◌, ◌≡◌, sym, some, List, ◌++◌, append_assoc, length}
use everarch.Bytes.{u32, u64}
use native.Mathlib.Omega.{arith}
use everarch.Bytes.Codec.{length-push_be, pull_be-push_be_zero, pull_n-append}
use everarch.GlacierCmd.{
  CmdHeader, RespHeader, StatBlobResp, BlobFilter, WatchBlobsBody, parse_cmd_header,
  format_cmd_header, parse_resp_header, format_resp_header, parse_stat_blob_resp,
  format_stat_blob_resp, parse_blob_filter, format_blob_filter, parse_watch_blobs_body,
  format_watch_blobs_body, blob_ref_size,
}

pub length-format_cmd_header : (h : CmdHeader) → length (format_cmd_header h) ≡ 5
unfolding format_cmd_header
length-format_cmd_header h = omega (arith, length-push_be 4 h.body_size)

pub parse-format_cmd_header :
    (h : CmdHeader) (rest : List ℕ)
    → parse_cmd_header (format_cmd_header h ++ rest)
      ≡ some (record { type = h.type % 256; body_size = h.body_size % u32 }, rest)
unfolding parse_cmd_header format_cmd_header
parse-format_cmd_header h rest = rw (pull_be-push_be_zero 4 h.body_size rest)

pub parse-format_resp_header :
    (h : RespHeader) (rest : List ℕ)
    → parse_resp_header (format_resp_header h ++ rest)
      ≡ some (record { status_code = h.status_code % 256; body_size = h.body_size % u32 }, rest)
unfolding parse_resp_header format_resp_header
parse-format_resp_header h rest = rw (pull_be-push_be_zero 4 h.body_size rest)

pub parse-format_stat_blob_resp :
    (r : StatBlobResp) (rest : List ℕ)
    → parse_stat_blob_resp (format_stat_blob_resp r ++ rest)
      ≡ some (record { flags = r.flags % 256; blob_size = r.blob_size % u32 }, rest)
unfolding parse_stat_blob_resp format_stat_blob_resp
parse-format_stat_blob_resp r rest = rw (pull_be-push_be_zero 4 r.blob_size rest)

pub parse-format_blob_filter :
    (f : BlobFilter) (rest : List ℕ)
    → parse_blob_filter (format_blob_filter f ++ rest)
      ≡ some (
        record {
          sort_order = f.sort_order % 256;
          flags_filter = f.flags_filter % 256;
          last_modified_after = f.last_modified_after % u64;
        },
        rest,
      )
unfolding parse_blob_filter format_blob_filter
parse-format_blob_filter f rest = rw (pull_be-push_be_zero 8 f.last_modified_after rest)

pub parse-format_watch_blobs_body :
    (b : WatchBlobsBody) (rest : List ℕ)
    → length b.key ≡ blob_ref_size
    → parse_watch_blobs_body (format_watch_blobs_body b ++ rest)
      ≡ some (
        record { key = b.key; last_modified = b.last_modified % u64; flags = b.flags % 256 },
        rest,
      )
unfolding parse_watch_blobs_body format_watch_blobs_body
parse-format_watch_blobs_body b rest h =
    rw (
      append_assoc,
      append_assoc,
      pull_n-append b.key _ blob_ref_size (sym h),
      pull_be-push_be_zero,
    )

-- Every structure of the glacier protocol that was formatted is parsed back with each field cut to
-- the width that the wire gives it, and the bytes behind it are left for the next read. The key of
-- a watch record must have the size of a blob ref.
pub protocol_roundtrip :
    (c : CmdHeader) (r : RespHeader) (s : StatBlobResp) (f : BlobFilter) (w : WatchBlobsBody)
    (rest : List ℕ)
    → length w.key ≡ blob_ref_size
    → (parse_cmd_header (format_cmd_header c ++ rest)
        ≡ some (record { type = c.type % 256; body_size = c.body_size % u32 }, rest))
      × (parse_resp_header (format_resp_header r ++ rest)
          ≡ some
              (record { status_code = r.status_code % 256; body_size = r.body_size % u32 }, rest))
      × (parse_stat_blob_resp (format_stat_blob_resp s ++ rest)
          ≡ some (record { flags = s.flags % 256; blob_size = s.blob_size % u32 }, rest))
      × (parse_blob_filter (format_blob_filter f ++ rest)
          ≡ some (
            record {
              sort_order = f.sort_order % 256;
              flags_filter = f.flags_filter % 256;
              last_modified_after = f.last_modified_after % u64;
            },
            rest,
          ))
      × (parse_watch_blobs_body (format_watch_blobs_body w ++ rest)
          ≡ some (
            record { key = w.key; last_modified = w.last_modified % u64; flags = w.flags % 256 },
            rest,
          ))
protocol_roundtrip c r s f w rest h = (
  parse-format_cmd_header c rest,
  parse-format_resp_header r rest,
  parse-format_stat_blob_resp s rest,
  parse-format_blob_filter f rest,
  parse-format_watch_blobs_body w rest h,
)
