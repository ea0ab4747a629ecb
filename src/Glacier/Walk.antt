-- ===== src/Glacier/Walk.antt =====
-- `evr_glacier_walk_bucket` of src/glacier.c, on the bytes of a bucket's file. The seeks stay
-- inside the range of a file offset, so they do not fail here.
pub mod Header
pub mod Records
use everarch.Prelude.{
  ℕ, zero, suc, ◌+◌, ◌-◌, ◌≡◌, Bool, true, false, Option, none, some, List, [], ◌∷◌, ◌++◌,
  if◌then◌else◌, is_zero, length, take, drop,
}
use everarch.Bytes.{pull_n, pull_u8, pull_be, pull_checksum, ◌>>=◌}
use everarch.Errors.{Status, ok, error, end}
use everarch.Files.{Grant, Source, SideEffect, Read, none_se, read_n}
use everarch.Glacier.{bucket_header_size, bucket_blob_header_size}

-- `struct evr_glacier_bucket_blob_stat`
pub record BlobStat : Type 0 where
  pub ref : List ℕ
  pub flags : ℕ
  pub last_modified : ℕ
  pub size : ℕ
  pub checksum : ℕ
  pub checksum_valid : Bool
  pub offset : ℕ

unfoldable pub visited_bytes_counter_se : ℕ → List ℕ → Status × ℕ
visited_bytes_counter_se visited_bytes buf = (ok, visited_bytes + length buf)

-- the pulls from `buf`, where `front` is what stands before the checksum
unfoldable pub pull_stat : List ℕ → ℕ → List ℕ → Option BlobStat
unfolding pull_n pull_u8 pull_be pull_checksum
pull_stat front offset buf = pull_n 28 buf >>= (λ (ref, b1). pull_u8 b1 >>= (λ (flags, b2).
    pull_be 8 0 b2 >>= (λ (last_modified, b3). pull_be 4 0 b3 >>= (λ (size, b4).
      pull_u8 b4 >>= (λ (checksum, b5). some (record {
        ref = ref;
        flags = flags;
        last_modified = last_modified;
        size = size;
        checksum = checksum;
        checksum_valid = pull_checksum front checksum;
        offset = offset;
      }))))))

unfoldable pub parse_blob_header : List ℕ → ℕ → Option BlobStat
unfolding pull_stat
parse_blob_header buf offset = pull_stat (take 41 buf) offset buf

module _ {C : Type 0} where
  abbrev pub walk_visited : (C → Status × C) → Status × C → Status × C
  walk_visited recur (ok, ctx) = recur ctx
  walk_visited recur (end, ctx) = (end, ctx)
  walk_visited recur (_, ctx) = (error, ctx)

module _ {C : Type 0} (visit_blob : C → BlobStat → Status × C) where
  abbrev pub walk_parsed :
      (ℕ → List Grant → C → Status × C) → ℕ → List Grant → C → Option BlobStat → Status × C
  walk_parsed recur f_pos gs ctx none = (error, ctx)
  walk_parsed recur f_pos gs ctx (some stat) =
      walk_visited (recur (f_pos + bucket_blob_header_size + stat.size) gs) (visit_blob ctx stat)

  -- what follows the read of a header that took `visited_bytes` bytes
  abbrev pub walk_header :
      (ℕ → List Grant → C → Status × C) → ℕ → C → Status → List ℕ → ℕ → List Grant → Status × C
  walk_header recur f_pos ctx ok buf visited_bytes gs =
      walk_parsed recur f_pos gs ctx (parse_blob_header buf (f_pos + bucket_blob_header_size))
  walk_header recur f_pos ctx end buf visited_bytes gs =
      if is_zero visited_bytes then (ok, ctx) else (end, ctx)
  walk_header recur f_pos ctx _ buf visited_bytes gs = (error, ctx)

  -- `while(1)`: each round that goes on reads a header, so the file's length is fuel enough.
  unfoldable pub walk_loop : ℕ → List ℕ → ℕ → List Grant → C → Status × C
  unfolding read_n visited_bytes_counter_se parse_blob_header
  walk_loop zero file f_pos gs ctx = (error, ctx)
  walk_loop (suc fuel) file f_pos gs ctx =
      let r =
        read_n visited_bytes_counter_se (record { bytes = drop f_pos file; grants = gs })
          bucket_blob_header_size 0 in
      walk_header (walk_loop fuel file) f_pos ctx r.status r.buffer r.ctx r.source.grants

  abbrev pub walk_from :
      (C → ℕ → Status × C) → List ℕ → C → Status → Option (ℕ × List ℕ) → List Grant → Status × C
  walk_from visit_bucket file ctx ok (some (end_offset, _)) gs =
      walk_visited (walk_loop (suc (length file)) file bucket_header_size gs)
        (visit_bucket ctx end_offset)
  walk_from visit_bucket file ctx _ _ gs = (error, ctx)

  -- A NULL `visit_bucket` is one that returns `ok`.
  unfoldable pub walk_bucket : (C → ℕ → Status × C) → List ℕ → List Grant → C → Status × C
  unfolding read_n walk_loop
  walk_bucket visit_bucket file gs ctx =
      let r = read_n {C = ℕ} none_se (record { bytes = drop 3 file; grants = gs }) 4 0 in
      walk_from visit_bucket file ctx r.status (pull_be 4 0 r.buffer) r.source.grants
