-- ===== src/DynMem.antt =====
-- The dynamic arrays of src/dyn-mem.c. Whether malloc and realloc find memory is an argument; an
-- array that could not grow is freed, so `none` is all that is left of it.
pub mod Laws
mod Tests
use everarch.Prelude.{
  ℕ, zero, suc, ◌+◌, ◌-◌, ◌*◌, ◌/◌, Bool, true, false, Option, none, some, List, [], ◌∷◌, ◌++◌, ltb,
  if◌then◌else◌, is_zero, length, take, drop, get_or, max,
}
use everarch.Errors.{Status, ok, error}

-- `bytes` are the first `size_used` bytes of `data`.
pub record DynamicArray : Type 0 where
  pub size_allocated : ℕ
  pub bytes : List ℕ

-- `sizeof(struct dynamic_array)`
abbrev pub header_size : ℕ
header_size = 24

abbrev pub page_size : ℕ
page_size = 4096

unfoldable pub alloc_dynamic_array : Bool → ℕ → Option DynamicArray
alloc_dynamic_array malloc_ok initial_size =
    if malloc_ok
    then some (record {
      size_allocated = if is_zero initial_size then page_size - header_size else initial_size;
      bytes = [];
    })
    else none

-- `(size_t)(da->size_allocated * 1.5) + 1`, or `min_size` if that is more
abbrev pub grown_size : ℕ → ℕ → ℕ
grown_size size_allocated min_size =
    let new_size = size_allocated * 3 / 2 + 1 in
    if ltb new_size min_size then min_size else new_size

unfoldable pub grow_dynamic_array_at_least : Bool → Option DynamicArray → ℕ → Option DynamicArray
grow_dynamic_array_at_least false da min_size = none
grow_dynamic_array_at_least true none min_size =
    some (record { size_allocated = min_size; bytes = [] })
grow_dynamic_array_at_least true (some da) min_size =
    some (record da { size_allocated = grown_size da.size_allocated min_size })

abbrev pub append_bytes : List ℕ → Option DynamicArray → Option DynamicArray
append_bytes buf none = none
append_bytes buf (some da) = some (record da { bytes = da.bytes ++ buf })

unfoldable pub write_n_dynamic_array : Bool → DynamicArray → List ℕ → Option DynamicArray
unfolding grow_dynamic_array_at_least
write_n_dynamic_array realloc_ok da buf =
    let new_size_used = length da.bytes + length buf in
    append_bytes buf (
      if ltb da.size_allocated new_size_used
      then grow_dynamic_array_at_least realloc_ok (some da) new_size_used
      else some da)

unfoldable pub dynamic_array_remove : DynamicArray → ℕ → ℕ → Status × DynamicArray
dynamic_array_remove da offset size =
    let end_offset = offset + size in
    if ltb end_offset (length da.bytes)
    then (ok, record da { bytes = take offset da.bytes ++ drop end_offset da.bytes })
    else if ltb (length da.bytes) end_offset
    then (error, da)
    else (ok, record da { bytes = take (length da.bytes - size) da.bytes })

-- The loop of `rtrim_dynamic_array`: the size that is left. The byte at the start is never looked at.
unfoldable pub rtrim_size : (ℕ → Bool) → List ℕ → ℕ → ℕ
rtrim_size istrimmed bytes zero = 0
rtrim_size istrimmed bytes (suc zero) = 1
rtrim_size istrimmed bytes (suc (suc n)) =
    let rest = rtrim_size istrimmed bytes (suc n) in
    if istrimmed (get_or bytes (suc n) 0) then rest else suc (suc n)

unfoldable pub rtrim_dynamic_array : (ℕ → Bool) → DynamicArray → DynamicArray
unfolding rtrim_size
rtrim_dynamic_array istrimmed da = record da {
  bytes = take (rtrim_size istrimmed da.bytes (length da.bytes)) da.bytes;
}
