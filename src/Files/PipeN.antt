-- ===== src/Files/PipeN.antt =====
-- `pipe_n` and `dump_n` of src/files.c.
use everarch.Prelude.{
  ℕ, zero, suc, ◌-◌, ◌≤◌, ◌<◌, ◌≡◌, refl, sym, ◌∙◌, subst, min, List, [], ◌∷◌, ◌++◌, append-nil,
  append_assoc, arith, length, take, drop, length-append, take-append_ge, drop-append_ge,
}
use everarch.Errors.{Status, ok, error, end}
use everarch.Files.{
  Grant, Source, ReadResult, failed, got, read, read_grant, Sink, SideEffect, Read, write_n,
}
use everarch.Files.Pipe.{
  Pipe, pipe_n_wrote, pipe_n_round, pipe_n_loop, pipe_n, dump_n_round, dump_n_loop, dump_n,
}
use everarch.Files.ReadN.{Flows, ReadCase, read_grant_case}
use everarch.Files.WriteN.{WriteSpec, write_n_exact}

-- How `pipe_n` may end, with `n` bytes to move from `bytes` to behind `out`.
abbrev pub PipeEnds :
    {C : Type 0} (update : C → List ℕ → C)
    → List ℕ
    → List ℕ
    → List Grant
    → List Grant
    → ℕ
    → C
    → Pipe C
    → Status
    → Type 0
PipeEnds update bytes out gs hs n c r ok =
    (n ≤ length bytes)
    × (r.dest.out ≡ out ++ take n bytes)
    × (r.ctx ≡ update c (take n bytes))
    × (r.source.bytes ≡ drop n bytes)
PipeEnds update bytes out gs hs n c r end = Flows hs → ⊥
PipeEnds update bytes out gs hs n c r error = Flows gs → Flows hs → length bytes < n
PipeEnds update bytes out gs hs n c r _ = ⊥

abbrev pub PipeSpec :
    {C : Type 0} (update : C → List ℕ → C)
    → List ℕ
    → List ℕ
    → List Grant
    → List Grant
    → ℕ
    → C
    → Pipe C
    → Type 0
PipeSpec update bytes out gs hs n c r = PipeEnds update bytes out gs hs n c r r.status

-- How `dump_n` may end.
abbrev pub DumpEnds :
    {C : Type 0} (update : C → List ℕ → C) → List ℕ → List Grant → ℕ → C → Read C → Status → Type 0
DumpEnds update bytes gs n c r ok =
    (n ≤ length bytes)
    × (r.ctx ≡ update c (take n bytes))
    × (r.source.bytes ≡ drop n bytes)
    × (Flows gs → Flows r.source.grants)
DumpEnds update bytes gs n c r end = (length bytes < n) × (r.ctx ≡ update c bytes)
DumpEnds update bytes gs n c r error = Flows gs → ⊥
DumpEnds update bytes gs n c r _ = ⊥

abbrev pub DumpSpec :
    {C : Type 0} (update : C → List ℕ → C) → List ℕ → List Grant → ℕ → C → Read C → Type 0
DumpSpec update bytes gs n c r = DumpEnds update bytes gs n c r r.status

module _ {C : Type 0} (update : C → List ℕ → C)
    (update-append : (c : C) (xs ys : List ℕ) → update (update c xs) ys ≡ update c (xs ++ ys)) where
  dump_glue :
      (s : Status) (xs ys : List ℕ) (gs gs' : List Grant) (n : ℕ) (c : C) (r : Read C)
      → length xs ≤ n
      → (Flows gs → Flows gs')
      → DumpEnds update ys gs' (n - length xs) (update c xs) r s
      → DumpEnds update (xs ++ ys) gs n c r s
  dump_glue ok xs ys gs gs' n c r h fl (fits, d, rest, g) = (
    rw length-append (omega arith),
    d ∙ rw (take-append_ge n xs ys h, update-append),
    rest ∙ sym (drop-append_ge n xs ys h),
    λ x. g (fl x),
  )
  dump_glue end xs ys gs gs' n c r h fl (short, d) =
      (rw length-append (omega arith), d ∙ update-append c xs ys)
  dump_glue error xs ys gs gs' n c r h fl e = λ x. e (fl x)
  dump_glue _ xs ys gs gs' n c r h fl e = e

  pipe_glue :
      (s : Status) (xs ys out : List ℕ) (gs gs' hs hs' : List Grant) (n : ℕ) (c : C) (r : Pipe C)
      → length xs ≤ n
      → (Flows gs → Flows gs')
      → (Flows hs → Flows hs')
      → PipeEnds update ys (out ++ xs) gs' hs' (n - length xs) (update c xs) r s
      → PipeEnds update (xs ++ ys) out gs hs n c r s
  pipe_glue ok xs ys out gs gs' hs hs' n c r h fl fm (fits, b, d, rest) = (
    rw length-append (omega arith),
    b ∙ rw (take-append_ge n xs ys h, append_assoc),
    d ∙ rw (take-append_ge n xs ys h, update-append),
    rest ∙ sym (drop-append_ge n xs ys h),
  )
  pipe_glue end xs ys out gs gs' hs hs' n c r h fl fm e = λ x. e (fm x)
  pipe_glue error xs ys out gs gs' hs hs' n c r h fl fm e =
      λ x y. let short = e (fl x) (fm y) in rw length-append (omega arith)
  pipe_glue _ xs ys out gs gs' hs hs' n c r h fl fm e = e

module _ {C : Type 0} (se : SideEffect C) (update : C → List ℕ → C)
    (se_ok : (c : C) (bs : List ℕ) → se c bs ≡ (ok, update c bs))
    (update-nil : (c : C) → update c [] ≡ c)
    (update-append : (c : C) (xs ys : List ℕ) → update (update c xs) ys ≡ update c (xs ++ ys)) where
  dump_n_round_lem :
      (recur : Source → ℕ → C → Read C) (bytes : List ℕ) (gs : List Grant) (n count : ℕ) (c : C)
      → ((f : Source) (m : ℕ) (d : C) → m < n → DumpSpec update f.bytes f.grants m d (recur f m d))
      → 0 < n
      → count ≤ n
      → (res : ReadResult × Source) → ReadCase bytes gs count res
      → DumpSpec update bytes gs n c (dump_n_round se recur n c res)
  dump_n_round_lem recur bytes gs n count c ih h hc (failed, f) k = k
  dump_n_round_lem recur bytes gs n count c ih h hc (got [], f) (e, _, stop, g) =
      let none_left : bytes ≡ [] = stop refl in (rw none_left h, rw none_left (sym (update-nil c)))
  dump_n_round_lem recur bytes gs n count c ih h hc (got (b ∷ bs), f) (e, le, _, g) =
      let m = n - length (b ∷ bs) in
      let r = recur f m (update c (b ∷ bs)) in
      rw (se_ok c (b ∷ bs), e)
        (dump_glue update update-append r.status (b ∷ bs) f.bytes gs f.grants n c r (omega arith) g
          (ih f m (update c (b ∷ bs)) (omega arith)))

  dump_n_loop_lem :
      (fuel size : ℕ) (f : Source) (n : ℕ) (c : C)
      → n ≤ fuel
      → 0 < size
      → DumpSpec update f.bytes f.grants n c (dump_n_loop se fuel size f n c)
  unfolding dump_n_loop read
  dump_n_loop_lem zero size f zero c h hs = (omega arith, sym (update-nil c), refl, λ x. x)
  dump_n_loop_lem zero size f (suc n) c h hs = absurd (omega arith)
  dump_n_loop_lem (suc fuel) size f zero c h hs = (omega arith, sym (update-nil c), refl, λ x. x)
  dump_n_loop_lem (suc fuel) size f (suc n) c h hs =
      let count = min size (suc n) in
      dump_n_round_lem (dump_n_loop se fuel size) f.bytes f.grants (suc n) count c
        (λ g m d lt. dump_n_loop_lem fuel size g m d (omega arith) hs) (omega arith) (omega arith)
        (read_grant f.bytes count f.grants) (read_grant_case f.bytes count f.grants (omega arith))

  -- `dump_n` reads over exactly n bytes and shows them to the side effect, however the reads are
  -- cut; it returns `end` only when fewer are left, and `error` only if a call fails.
  pub dump_n_exact :
      (f : Source) (n : ℕ) (c : C) → DumpSpec update f.bytes f.grants n c (dump_n se f n c)
  unfolding dump_n dump_n_loop
  dump_n_exact f zero c = (omega arith, sym (update-nil c), refl, λ x. x)
  dump_n_exact f (suc n) c =
      dump_n_loop_lem (suc n) (min (suc n) 4096) f (suc n) c (omega arith) (omega arith)

  module _ (recur : Sink → Source → ℕ → C → Pipe C) (gs : List Grant) (n : ℕ) (c : C)
      (ih : (dest : Sink) (f : Source) (m : ℕ) (d : C)
        → m < n
        → PipeSpec update f.bytes dest.out f.grants dest.grants m d (recur dest f m d)) where
    pipe_n_wrote_lem :
        (xs out : List ℕ) (hs : List Grant) (f : Source) (res : Status × Sink)
        → 0 < length xs
        → length xs ≤ n
        → (Flows gs → Flows f.grants)
        → WriteSpec xs out hs res
        → PipeSpec update
            (xs ++ f.bytes)
            out
            gs
            hs
            n
            c
            (pipe_n_wrote recur (n - length xs) (update c xs) f res)
    pipe_n_wrote_lem xs out hs f (ok, dest) pos le g (e, fl) =
        let r = recur dest f (n - length xs) (update c xs) in
        pipe_glue update update-append r.status xs f.bytes out gs f.grants hs dest.grants n c r le g
          fl
          (subst
            (λ o.
              PipeEnds update f.bytes o f.grants dest.grants (n - length xs) (update c xs) r
                r.status)
            e (ih dest f (n - length xs) (update c xs) (omega arith)))
    pipe_n_wrote_lem xs out hs f (end, dest) pos le g (_, _, _, _, stop) = stop
    pipe_n_wrote_lem xs out hs f (error, dest) pos le g (_, _, _, _, stop) = λ x y. absurd (stop y)
    pipe_n_wrote_lem xs out hs f (_, dest) pos le g w = absurd w

    pipe_n_round_lem :
        (dest : Sink) (bytes : List ℕ) (count : ℕ) (res : ReadResult × Source)
        → 0 < n
        → count ≤ n
        → ReadCase bytes gs count res
        → PipeSpec update bytes dest.out gs dest.grants n c (pipe_n_round se recur n c dest res)
    pipe_n_round_lem dest bytes count (failed, f) h hc k = λ x y. absurd (k x)
    pipe_n_round_lem dest bytes count (got [], f) h hc (e, _, stop, g) = λ x y. rw (stop refl) h
    pipe_n_round_lem dest bytes count (got (b ∷ bs), f) h hc (e, le, _, g) =
        rw (se_ok c (b ∷ bs), e)
          (pipe_n_wrote_lem (b ∷ bs) dest.out dest.grants f (write_n dest (b ∷ bs)) (omega arith)
            (omega arith) g (write_n_exact dest (b ∷ bs)))

  pipe_n_loop_lem :
      (fuel size : ℕ) (dest : Sink) (f : Source) (n : ℕ) (c : C)
      → n ≤ fuel
      → 0 < size
      → PipeSpec update f.bytes dest.out f.grants dest.grants n c
          (pipe_n_loop se fuel size dest f n c)
  unfolding pipe_n_loop read
  pipe_n_loop_lem zero size dest f zero c h hs =
      (omega arith, sym (append-nil dest.out), sym (update-nil c), refl)
  pipe_n_loop_lem zero size dest f (suc n) c h hs = absurd (omega arith)
  pipe_n_loop_lem (suc fuel) size dest f zero c h hs =
      (omega arith, sym (append-nil dest.out), sym (update-nil c), refl)
  pipe_n_loop_lem (suc fuel) size dest f (suc n) c h hs =
      let count = min (suc n) size in
      pipe_n_round_lem (pipe_n_loop se fuel size) f.grants (suc n) c
        (λ d g m e lt. pipe_n_loop_lem fuel size d g m e (omega arith) hs) dest f.bytes count
        (read_grant f.bytes count f.grants) (omega arith) (omega arith)
        (read_grant_case f.bytes count f.grants (omega arith))

  -- `pipe_n` returns `ok` exactly with the next n bytes of the source written behind what the
  -- destination held and shown to the side effect. It returns `end` only if the destination
  -- fails, and `error` only if a call of either side fails or fewer than n bytes were left.
  pub pipe_n_exact :
      (dest : Sink) (f : Source) (n : ℕ) (c : C)
      → PipeSpec update f.bytes dest.out f.grants dest.grants n c (pipe_n se dest f n c)
  unfolding pipe_n
  pipe_n_exact dest f n c = pipe_n_loop_lem n 4096 dest f n c (omega arith) (omega arith)
