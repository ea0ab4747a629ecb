-- ===== src/Errors.antt =====
-- The result codes of src/errors.h.
use everarch.Prelude.{Bool, true, false}

pub data Status : Type 0 where
  ok error not_found temporary_occupied end user_data_invalid exists : Status
  unknown_request glacier_index_db_corrupt : Status

-- `res != evr_ok`
abbrev pub is_ok : Status → Bool
is_ok Status.ok = true
is_ok _ = false
