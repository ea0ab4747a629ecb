-- ===== src/OpenFiles.antt =====
-- Reading a file that is kept as slices, each a blob, with the last slice in a cache: the open files of
-- src/open-files.c, one call under the lock of the file.
mod Tests
pub mod Slice
pub mod Read
use everarch.Prelude.{
  ℕ, zero, suc, ◌+◌, ◌-◌, Bool, true, false, not, ◌||◌, Option, none, some, List, [], ◌∷◌, ◌++◌,
  ltb, leb, ◌==◌, if◌then◌else◌, length, take, drop,
}
use everarch.Errors.{Status, ok, error}
use everarch.Keys.TinySet.{ref_eq}
use everarch.GlacierCmd.{RespHeader}
use everarch.Exec.{Exec, bind_next}
use everarch.Client.{Link, dump_over, req_cmd_get_blob}

-- `struct evr_file_slice` of src/claims.h
pub record FileSlice : Type 0 where
  pub ref : List ℕ
  pub size : ℕ

-- `struct evr_open_file` that is in use, with the slices of its claim. The connection is `none` once
-- it was closed.
pub record OpenFile (C : Type 0) : Type 0 where
  pub gc : Option C
  pub slices : List FileSlice
  pub cached_slice_index : ℕ
  pub cached_slice_buf : Option (List ℕ)

-- Where evr_open_file_cache_slice goes: to `out` with its result, or to the close of the connection.
pub data Cached : Type 0 where
  out : Status → Cached
  close_gc : Cached

module _ {C : Type 0} (link : Link C) (hash : List ℕ → List ℕ) (allocates : ℕ → Bool)
    (opens : Bool) where
  abbrev pub with_gc : OpenFile C → C → OpenFile C
  with_gc f c = record f { gc = some c }

  abbrev pub slice_done : OpenFile C → Cached → Status × OpenFile C
  slice_done f (out res) = (res, f)
  slice_done f close_gc = (error, record f { gc = none })

  -- a response that is no blob is read over
  abbrev pub slice_dumped : OpenFile C → Option (Unit {0}) × C → Status × OpenFile C
  slice_dumped f (some _, c) = slice_done (with_gc f c) (out error)
  slice_dumped f (none, c) = slice_done (with_gc f c) close_gc

  abbrev pub slice_matched : OpenFile C → List ℕ → Bool → Status × OpenFile C
  slice_matched f buf true = slice_done (record f { cached_slice_buf = some buf }) (out ok)
  slice_matched f buf false = slice_done (record f { cached_slice_buf = none }) (out error)

  abbrev pub slice_read : OpenFile C → FileSlice → Option (List ℕ) × C → Status × OpenFile C
  slice_read f s (none, c) = slice_done (record (with_gc f c) { cached_slice_buf = none }) close_gc
  slice_read f s (some buf, c) = slice_matched (with_gc f c) buf (ref_eq (hash buf) s.ref)

  -- Behind the flags. A buffer that was allocated and not filled is taken to be empty.
  abbrev pub slice_flags :
      OpenFile C → FileSlice → ℕ → ℕ → Option (Unit {0}) × C → Status × OpenFile C
  slice_flags f s si blob_size (none, c) = slice_done (with_gc f c) close_gc
  slice_flags f s si blob_size (some _, c) =
      let g : OpenFile C = record (with_gc f c) { cached_slice_index = si } in
      if not (allocates blob_size)
      then slice_done (record g { cached_slice_buf = none }) close_gc
      else if not opens
      then slice_done (record g { cached_slice_buf = some [] }) close_gc
      else slice_read g s (link.read_n c blob_size)

  abbrev pub slice_answered :
      OpenFile C → FileSlice → ℕ → Option RespHeader × C → Status × OpenFile C
  slice_answered f s si (none, c) = slice_done (with_gc f c) (out error)
  slice_answered f s si (some resp, c) =
      if not (resp.status_code == 32) || ltb resp.body_size 1
      then slice_dumped f (dump_over link resp.body_size c)
      else slice_flags f s si (resp.body_size - 1) (dump_over link 1 c)

  abbrev pub cache_slice_over : OpenFile C → FileSlice → ℕ → Option C → Status × OpenFile C
  cache_slice_over f s si none = (error, f)
  cache_slice_over f s si (some c) = slice_answered f s si (req_cmd_get_blob link s.ref c)

  -- `evr_open_file_cache_slice`
  unfoldable pub open_file_cache_slice : OpenFile C → FileSlice → ℕ → Status × OpenFile C
  unfolding req_cmd_get_blob ref_eq
  open_file_cache_slice f s si = cache_slice_over f s si f.gc

  -- `f->cached_slice_buf == NULL || f->cached_slice_index != si`
  abbrev pub is_cached : Option (List ℕ) → ℕ → ℕ → Bool
  is_cached none index si = false
  is_cached (some buf) index si = index == si

  abbrev pub load_slice : OpenFile C → FileSlice → ℕ → Status × OpenFile C
  load_slice f s si =
      if is_cached f.cached_slice_buf f.cached_slice_index si
      then (ok, f)
      else open_file_cache_slice f s si

  -- `memcpy` from the cache: `none` where it reads behind the end of the buffer
  abbrev pub copied : Option (List ℕ) → ℕ → ℕ → Option (List ℕ)
  copied none s_off s_size = none
  copied (some buf) s_off s_size =
      if leb (s_off + s_size) (length buf) then some (take s_size (drop s_off buf)) else none

  abbrev pub read_copied :
      (List ℕ → OpenFile C → Option (Status × List ℕ × OpenFile C))
      → ℕ
      → List ℕ
      → OpenFile C
      → Option (List ℕ)
      → Option (Status × List ℕ × OpenFile C)
  read_copied recur size buf f none = none
  read_copied recur size buf f (some bytes) =
      if length (buf ++ bytes) == size then some (ok, buf ++ bytes, f) else recur (buf ++ bytes) f

  abbrev pub read_loaded :
      (List ℕ → OpenFile C → Option (Status × List ℕ × OpenFile C))
      → ℕ
      → ℕ
      → FileSlice
      → ℕ
      → List ℕ
      → Status × OpenFile C
      → Option (Status × List ℕ × OpenFile C)
  read_loaded recur size off s slices_off buf (ok, f) =
      let s_off = if leb off slices_off then 0 else off - slices_off in
      let remaining_bytes = size - length buf in
      let s_size =
        if leb (s.size - s_off) remaining_bytes then s.size - s_off else remaining_bytes in
      read_copied recur size buf f (copied f.cached_slice_buf s_off s_size)
  read_loaded recur size off s slices_off buf (_, f) = some (error, buf, f)

  -- the loop of evr_open_file_read over the slices that are left
  unfoldable pub read_slices :
      ℕ → ℕ → List FileSlice → ℕ → ℕ → List ℕ → OpenFile C → Option (Status × List ℕ × OpenFile C)
  unfolding open_file_cache_slice
  read_slices size off [] si slices_off buf f = some (ok, buf, f)
  read_slices size off (s ∷ slices) si slices_off buf f =
      let recur = read_slices size off slices (suc si) (slices_off + s.size) in
      if ltb off (slices_off + s.size)
      then read_loaded recur size off s slices_off buf (load_slice f s si)
      else recur buf f

  -- `evr_open_file_read`: the result with the bytes that stand in the buffer, or `none` where a byte
  -- behind the end of the cached slice is read
  unfoldable pub open_file_read : OpenFile C → ℕ → ℕ → Option (Status × List ℕ × OpenFile C)
  unfolding read_slices
  open_file_read f size off = read_slices size off f.slices 0 0 [] f
