-- ===== src/GlacierCmd/Tests.antt =====
-- Concrete messages for the theorem on the glacier protocol.
use everarch.Prelude.{◌≡◌, refl, ◌%◌, some, [], ◌∷◌, ◌++◌, replicate}
use everarch.Bytes.{u32, u64}
use everarch.GlacierCmd.{
  CmdHeader, RespHeader, StatBlobResp, BlobFilter, WatchBlobsBody, parse_cmd_header,
  format_cmd_header, parse_resp_header, format_resp_header, parse_stat_blob_resp,
  format_stat_blob_resp, parse_blob_filter, format_blob_filter, parse_watch_blobs_body,
  format_watch_blobs_body,
}
use everarch.GlacierCmd.RoundTrip.{protocol_roundtrip}

abbrev put_header : CmdHeader
put_header = record { type = 3; body_size = 70000 }

abbrev ok_header : RespHeader
ok_header = record { status_code = 32; body_size = 5 }

abbrev stat_resp : StatBlobResp
stat_resp = record { flags = 1; blob_size = 4294967300 }

abbrev filter : BlobFilter
filter = record { sort_order = 1; flags_filter = 1; last_modified_after = 99 }

abbrev watched : WatchBlobsBody
watched = record { key = replicate 28 7; last_modified = 12; flags = 1 }

protocol_roundtrip_example :
    (parse_cmd_header (format_cmd_header put_header ++ (1 ∷ []))
      ≡ some (record { type = 3 % 256; body_size = 70000 % u32 }, 1 ∷ []))
    × (parse_resp_header (format_resp_header ok_header ++ (1 ∷ []))
        ≡ some (record { status_code = 32 % 256; body_size = 5 % u32 }, 1 ∷ []))
    × (parse_stat_blob_resp (format_stat_blob_resp stat_resp ++ (1 ∷ []))
        ≡ some (record { flags = 1 % 256; blob_size = 4294967300 % u32 }, 1 ∷ []))
    × (parse_blob_filter (format_blob_filter filter ++ (1 ∷ []))
        ≡ some (
          record { sort_order = 1 % 256; flags_filter = 1 % 256; last_modified_after = 99 % u64 },
          1 ∷ [],
        ))
    × (parse_watch_blobs_body (format_watch_blobs_body watched ++ (1 ∷ []))
        ≡ some (record { key = replicate 28 7; last_modified = 12 % u64; flags = 1 % 256 }, 1 ∷ []))
protocol_roundtrip_example =
    protocol_roundtrip put_header ok_header stat_resp filter watched (1 ∷ []) refl
