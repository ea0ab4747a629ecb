-- ===== src/Files/WriteN.antt =====
-- `write_n` of src/files.c writes the whole buffer, or a front of it and says so.
use everarch.Prelude.{
  ℕ, zero, suc, ◌≤◌, ◌≡◌, refl, sym, ap, ◌∙◌, min, List, [], ◌∷◌, ◌++◌, append-nil, append_assoc,
  arith, length, take, drop, length-drop, take-append-drop,
}
use everarch.Errors.{Status, ok, error, end}
use everarch.Files.{
  Grant, give, fail, broken_pipe, Sink, wrote, write, write_grant, write_n_round, write_n_loop,
  write_n,
}
use everarch.Files.ReadN.{Flows}

-- A failing call left the file with a front of the buffer.
abbrev pub Partial : List ℕ → List ℕ → List Grant → Sink → Type 0
Partial buf out gs f =
    (front : List ℕ) × (back : List ℕ) × (buf ≡ front ++ back)
    × (f.out ≡ out ++ front)
    × (Flows gs → ⊥)

-- A front of the buffer is written, and all of it on success.
abbrev pub WriteEnds : List ℕ → List ℕ → List Grant → Sink → Status → Type 0
WriteEnds buf out gs f ok = (f.out ≡ out ++ buf) × (Flows gs → Flows f.grants)
WriteEnds buf out gs f end = Partial buf out gs f
WriteEnds buf out gs f error = Partial buf out gs f
WriteEnds buf out gs f _ = ⊥

abbrev pub WriteSpec : List ℕ → List ℕ → List Grant → Status × Sink → Type 0
WriteSpec buf out gs (s, f) = WriteEnds buf out gs f s

Partial-glue :
    (n : ℕ) (buf out : List ℕ) (gs gs' : List Grant) (f : Sink)
    → (Flows gs → Flows gs')
    → Partial (drop n buf) (out ++ take n buf) gs' f
    → Partial buf out gs f
Partial-glue n buf out gs gs' f fl (front, back, e, h, g) = (
  take n buf ++ front,
  back,
  sym (take-append-drop n buf)
      ∙ ap (λ x. take n buf ++ x) e
      ∙ sym (append_assoc (take n buf) front back),
  h ∙ append_assoc out (take n buf) front,
  λ x. g (fl x),
)

-- One piece that was written, and what a further loop writes.
write_glue :
    (s : Status) (n : ℕ) (buf out : List ℕ) (gs gs' : List Grant) (f : Sink)
    → (Flows gs → Flows gs')
    → WriteEnds (drop n buf) (out ++ take n buf) gs' f s
    → WriteEnds buf out gs f s
write_glue ok n buf out gs gs' f fl (e, g) = (
  e ∙ append_assoc out (take n buf) (drop n buf) ∙ ap (λ x. out ++ x) (take-append-drop n buf),
  λ x. g (fl x),
)
write_glue end n buf out gs gs' f fl p = Partial-glue n buf out gs gs' f fl p
write_glue error n buf out gs gs' f fl p = Partial-glue n buf out gs gs' f fl p
write_glue _ n buf out gs gs' f fl e = e

module _ (recur : Sink → List ℕ → Status × Sink) (b : ℕ) (bs out : List ℕ)
    (ih : (f : Sink) (buf : List ℕ)
      → length buf ≤ length bs
      → WriteSpec buf f.out f.grants (recur f buf)) where
  wrote_lem :
      (n : ℕ) (gs gs' : List Grant)
      → (Flows gs → Flows gs')
      → WriteSpec (b ∷ bs) out gs (
          write_n_round recur
            (b ∷ bs)
            (wrote (suc n), record { out = out ++ take (suc n) (b ∷ bs); grants = gs' }))
  wrote_lem n gs gs' fl =
      let buf = drop n bs in
      let f : Sink = record { out = out ++ take (suc n) (b ∷ bs); grants = gs' } in
      write_glue (recur f buf).0 (suc n) (b ∷ bs) out gs gs' (recur f buf).1 fl
        (ih f buf (rw length-drop (omega arith)))

  write_n_round_lem :
      (gs : List Grant)
      → WriteSpec (b ∷ bs) out gs (write_n_round recur (b ∷ bs) (write_grant out (b ∷ bs) gs))
  write_n_round_lem [] = wrote_lem (length bs) [] [] (λ x. x)
  write_n_round_lem (give g ∷ gs) = wrote_lem (min (length bs) g) (give g ∷ gs) gs (λ x. x)
  write_n_round_lem (fail ∷ gs) = ([], b ∷ bs, refl, sym (append-nil out), λ x. x)
  write_n_round_lem (broken_pipe ∷ gs) = ([], b ∷ bs, refl, sym (append-nil out), λ x. x)

write_n_loop_lem :
    (fuel : ℕ) (f : Sink) (buf : List ℕ)
    → length buf ≤ fuel
    → WriteSpec buf f.out f.grants (write_n_loop fuel f buf)
unfolding write_n_loop write
write_n_loop_lem zero f [] h = (sym (append-nil f.out), λ x. x)
write_n_loop_lem zero f (b ∷ bs) h = absurd (omega arith)
write_n_loop_lem (suc fuel) f [] h = (sym (append-nil f.out), λ x. x)
write_n_loop_lem (suc fuel) f (b ∷ bs) h =
    write_n_round_lem (write_n_loop fuel) b bs f.out
      (λ g buf le. write_n_loop_lem fuel g buf (omega arith)) f.grants

-- However the writes are cut, and whatever calls fail, `write_n` either returns `ok` and has
-- written the whole buffer behind what the file held, or it returns `end` or `error` and has
-- written a front of the buffer, which happens only if a call of the schedule fails.
pub write_n_exact : (f : Sink) (buf : List ℕ) → WriteSpec buf f.out f.grants (write_n f buf)
unfolding write_n
write_n_exact f buf = write_n_loop_lem (length buf) f buf (omega arith)
