-- ===== src/Files/Pipe.antt =====
-- The loops of src/files.c that take bytes from one file and write them to another or drop them.
use everarch.Prelude.{ℕ, zero, suc, ◌-◌, min, List, [], ◌∷◌, if◌then◌else◌, is_zero, length}
use everarch.Errors.{Status, ok, error, end}
use everarch.Files.{Source, ReadResult, failed, got, read, Sink, SideEffect, Read, write_n}

pub record Pipe (C : Type 0) : Type 0 where
  pub status : Status
  pub ctx : C
  pub source : Source
  pub dest : Sink

module _ {C : Type 0} where
  abbrev pub pipe_n_wrote :
      (Sink → Source → ℕ → C → Pipe C) → ℕ → C → Source → Status × Sink → Pipe C
  pipe_n_wrote recur remaining ctx src (ok, dest) = recur dest src remaining ctx
  pipe_n_wrote recur remaining ctx src (end, dest) = record {
    status = end;
    ctx = ctx;
    source = src;
    dest = dest;
  }
  pipe_n_wrote recur remaining ctx src (_, dest) = record {
    status = error;
    ctx = ctx;
    source = src;
    dest = dest;
  }

  abbrev pub pipe_n_next :
      (Sink → Source → ℕ → C → Pipe C) → ℕ → List ℕ → Sink → Source → Status × C → Pipe C
  pipe_n_next recur remaining bs dest src (ok, ctx) =
      pipe_n_wrote recur (remaining - length bs) ctx src (write_n dest bs)
  pipe_n_next recur remaining bs dest src (_, ctx) = record {
    status = error;
    ctx = ctx;
    source = src;
    dest = dest;
  }

  abbrev pub dump_n_next : (Source → ℕ → C → Read C) → ℕ → List ℕ → Source → Status × C → Read C
  dump_n_next recur remaining bs f (ok, ctx) = recur f (remaining - length bs) ctx
  dump_n_next recur remaining bs f (_, ctx) = record {
    status = error;
    buffer = [];
    ctx = ctx;
    source = f;
  }

module _ {C : Type 0} (side_effect : SideEffect C) where
  abbrev pub pipe_n_round :
      (Sink → Source → ℕ → C → Pipe C) → ℕ → C → Sink → ReadResult × Source → Pipe C
  pipe_n_round recur remaining ctx dest (failed, src) = record {
    status = error;
    ctx = ctx;
    source = src;
    dest = dest;
  }
  pipe_n_round recur remaining ctx dest (got [], src) = record {
    status = error;
    ctx = ctx;
    source = src;
    dest = dest;
  }
  pipe_n_round recur remaining ctx dest (got (b ∷ bs), src) =
      pipe_n_next recur remaining (b ∷ bs) dest src (side_effect ctx (b ∷ bs))

  -- `buffer_size` is `sizeof(buffer)`, 4096 in the source.
  unfoldable pub pipe_n_loop : ℕ → ℕ → Sink → Source → ℕ → C → Pipe C
  pipe_n_loop zero buffer_size dest src remaining ctx = record {
    status = ok;
    ctx = ctx;
    source = src;
    dest = dest;
  }
  pipe_n_loop (suc fuel) buffer_size dest src remaining ctx =
      if is_zero remaining
      then record { status = ok; ctx = ctx; source = src; dest = dest }
      else pipe_n_round (pipe_n_loop fuel buffer_size) remaining ctx dest
          (read src (min remaining buffer_size))

  unfoldable pub pipe_n : Sink → Source → ℕ → C → Pipe C
  unfolding pipe_n_loop read write_n
  pipe_n dest src n ctx = pipe_n_loop n 4096 dest src n ctx

  abbrev pub dump_n_round : (Source → ℕ → C → Read C) → ℕ → C → ReadResult × Source → Read C
  dump_n_round recur remaining ctx (failed, f) = record {
    status = error;
    buffer = [];
    ctx = ctx;
    source = f;
  }
  dump_n_round recur remaining ctx (got [], f) = record {
    status = end;
    buffer = [];
    ctx = ctx;
    source = f;
  }
  dump_n_round recur remaining ctx (got (b ∷ bs), f) =
      dump_n_next recur remaining (b ∷ bs) f (side_effect ctx (b ∷ bs))

  -- The bytes read are dropped, so the result's buffer stays empty.
  unfoldable pub dump_n_loop : ℕ → ℕ → Source → ℕ → C → Read C
  dump_n_loop zero buf_size f remaining ctx = record {
    status = ok;
    buffer = [];
    ctx = ctx;
    source = f;
  }
  dump_n_loop (suc fuel) buf_size f remaining ctx =
      if is_zero remaining
      then record { status = ok; buffer = []; ctx = ctx; source = f }
      else dump_n_round (dump_n_loop fuel buf_size) remaining ctx (read f (min buf_size remaining))

  unfoldable pub dump_n : Source → ℕ → C → Read C
  unfolding dump_n_loop read
  dump_n f bytes ctx = dump_n_loop bytes (min bytes 4096) f bytes ctx
