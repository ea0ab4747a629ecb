-- ===== src/Files.antt =====
-- The byte transfer loops of src/files.c. A `struct evr_file` is what stands behind its read and
-- write functions: the bytes still to come or already taken, and a schedule that says how the
-- calls go. A call may be granted fewer bytes than it asks for, or fail, at any time.
pub mod ReadN
pub mod WriteN
pub mod PipeN
pub mod Pipe
mod Tests
use everarch.Prelude.{
  ℕ, zero, suc, ◌+◌, ◌-◌, ◌<◌, min, Bool, true, false, List, [], ◌∷◌, ◌++◌, if◌then◌else◌, is_zero,
  length, take, drop,
}
use everarch.Errors.{Status, ok, error, end}

-- `give g` grants up to g + 1 bytes; an empty schedule grants every call what it asks for.
pub data Grant : Type 0 where
  give : ℕ → Grant
  fail : Grant
  broken_pipe : Grant

abbrev pub granted : ℕ → ℕ → ℕ
granted zero g = 0
granted (suc count) g = suc (min count g)

pub record Source : Type 0 where
  pub bytes : List ℕ
  pub grants : List Grant

-- What `f->read` returns: a negative number, or the bytes it put into the buffer (none at the end).
pub data ReadResult : Type 0 where
  failed : ReadResult
  got : List ℕ → ReadResult

abbrev pub read_next : List ℕ → ℕ → List Grant → ReadResult × Source
read_next bytes n gs = (got (take n bytes), record { bytes = drop n bytes; grants = gs })

abbrev pub read_grant : List ℕ → ℕ → List Grant → ReadResult × Source
read_grant bytes count [] = read_next bytes count []
read_grant bytes count (give g ∷ gs) = read_next bytes (granted count g) gs
read_grant bytes count (_ ∷ gs) = (failed, record { bytes = bytes; grants = gs })

unfoldable pub read : Source → ℕ → ReadResult × Source
read src count = read_grant src.bytes count src.grants

pub record Sink : Type 0 where
  pub out : List ℕ
  pub grants : List Grant

pub data WriteResult : Type 0 where
  wrote : ℕ → WriteResult
  write_failed : WriteResult
  pipe_closed : WriteResult

abbrev pub write_next : List ℕ → List ℕ → ℕ → List Grant → WriteResult × Sink
write_next out buf n gs = (wrote n, record { out = out ++ take n buf; grants = gs })

abbrev pub write_grant : List ℕ → List ℕ → List Grant → WriteResult × Sink
write_grant out buf [] = write_next out buf (length buf) []
write_grant out buf (give g ∷ gs) = write_next out buf (granted (length buf) g) gs
write_grant out buf (fail ∷ gs) = (write_failed, record { out = out; grants = gs })
write_grant out buf (broken_pipe ∷ gs) = (pipe_closed, record { out = out; grants = gs })

-- What `f->write` does: it takes a front of the buffer, or fails, with EPIPE or otherwise.
unfoldable pub write : Sink → List ℕ → WriteResult × Sink
write dest buf = write_grant dest.out buf dest.grants

-- `side_effect(ctx, buf, size)` with the context it leaves; `none_se` is a NULL side effect.
abbrev pub SideEffect : Type 0 → Type 0
SideEffect C = C → List ℕ → Status × C

abbrev pub none_se : {C : Type 0} → SideEffect C
none_se c buf = (ok, c)

-- What a read loop leaves: its result, what it put into the buffer, the side effect's context and
-- the file.
pub record Read (C : Type 0) : Type 0 where
  pub status : Status
  pub buffer : List ℕ
  pub ctx : C
  pub source : Source

module _ {C : Type 0} where
  -- what follows the side effect's call on the bytes `bs` that were read
  abbrev pub read_n_next :
      (Source → ℕ → List ℕ → C → Read C) → ℕ → List ℕ → List ℕ → Source → Status × C → Read C
  read_n_next recur remaining buffer bs f (ok, ctx) =
      recur f (remaining - length bs) (buffer ++ bs) ctx
  read_n_next recur remaining buffer bs f (_, ctx) = record {
    status = error;
    buffer = buffer ++ bs;
    ctx = ctx;
    source = f;
  }

module _ {C : Type 0} (side_effect : SideEffect C) where
  -- one round of the loop, behind the call of `f->read`
  abbrev pub read_n_round :
      (Source → ℕ → List ℕ → C → Read C) → ℕ → List ℕ → C → ReadResult × Source → Read C
  read_n_round recur remaining buffer ctx (failed, f) = record {
    status = error;
    buffer = buffer;
    ctx = ctx;
    source = f;
  }
  read_n_round recur remaining buffer ctx (got [], f) = record {
    status = end;
    buffer = buffer;
    ctx = ctx;
    source = f;
  }
  read_n_round recur remaining buffer ctx (got (b ∷ bs), f) =
      read_n_next recur remaining buffer (b ∷ bs) f (side_effect ctx (b ∷ bs))

  -- `while(remaining > 0)` of `read_n`. Each round that goes on takes a byte at least, so the
  -- number of bytes asked for is fuel enough.
  unfoldable pub read_n_loop : ℕ → Source → ℕ → List ℕ → C → Read C
  read_n_loop zero f remaining buffer ctx = record {
    status = ok;
    buffer = buffer;
    ctx = ctx;
    source = f;
  }
  read_n_loop (suc fuel) f remaining buffer ctx =
      if is_zero remaining
      then record { status = ok; buffer = buffer; ctx = ctx; source = f }
      else read_n_round (read_n_loop fuel) remaining buffer ctx (read f remaining)

  unfoldable pub read_n : Source → ℕ → C → Read C
  unfolding read_n_loop read
  read_n f bytes ctx = read_n_loop bytes f bytes [] ctx

abbrev pub write_n_round :
    (Sink → List ℕ → Status × Sink) → List ℕ → WriteResult × Sink → Status × Sink
write_n_round recur buf (wrote zero, f) = (error, f)
write_n_round recur buf (wrote (suc n), f) = recur f (drop (suc n) buf)
write_n_round recur buf (write_failed, f) = (error, f)
write_n_round recur buf (pipe_closed, f) = (end, f)

-- `while(remaining > 0)` of `write_n`; the list is what `buf` and `remaining` still name.
unfoldable pub write_n_loop : ℕ → Sink → List ℕ → Status × Sink
write_n_loop zero f buf = (ok, f)
write_n_loop (suc fuel) f [] = (ok, f)
write_n_loop (suc fuel) f (b ∷ bs) = write_n_round (write_n_loop fuel) (b ∷ bs) (write f (b ∷ bs))

-- Each round that goes on writes a byte at least, so the size is fuel enough.
unfoldable pub write_n : Sink → List ℕ → Status × Sink
unfolding write_n_loop write
write_n f buffer = write_n_loop (length buffer) f buffer
