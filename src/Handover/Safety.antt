-- ===== src/Handover/Safety.antt =====
-- What holds in every state that the threads of a handover can reach.
use everarch.Prelude.{
  ℕ, ◌≡◌, ◌⊎◌, inl, inr, refl, ap, ◌∙◌, Bool, true, false, Option, ◌++◌, arith, if◌then◌else◌, ◌==◌,
  update, append-nil,
}
use everarch.Handover.{
  RunState, running, abort, finish, Task, Pc, sleep, woken, Condition, Handover, stop,
  decide_occupied, Signalled, quiet, nobody, wakes, System, Step, moves, spurious, Reach, start,
  later, init_handover, initial,
}
use everarch.Handover.Invariant.{holds, owns, Knows, held, Inv}
use everarch.Handover.Moves.{move_keeps}

woken-Inv :
    (h : Handover) (pc : ℕ → Pc) (j : ℕ) (t : Task)
    → pc j ≡ sleep t
    → Inv h pc
    → Inv h (update pc j (woken t))
woken-Inv h pc j t e inv = record { owner = own; knows = know; history = inv.history }
  where
    own : (m : ℕ) → holds (update pc j (woken t) m) ≡ owns h.owner m
    own m = ground (arith, inv.owner m)

    split : (m : ℕ) (b : Bool) → Knows h (if b then woken t else pc m)
    split m true = tt
    split m false = inv.knows m

    know : (m : ℕ) → Knows h (update pc j (woken t) m)
    know m = split m (j == m)

Signalled-Inv :
    {h : Handover} {s : Option Condition} {pc pc' : ℕ → Pc}
    → Signalled s pc pc'
    → Inv h pc
    → Inv h pc'
Signalled-Inv quiet inv = inv
Signalled-Inv (nobody g) inv = inv
Signalled-Inv {h} {pc = pc} (wakes j t e c) inv = woken-Inv h pc j t e inv

Step-Inv : {s u : System} → Step s u → Inv s.handover s.pc → Inv u.handover u.pc
Step-Inv (moves {h} {h'} {pc} i call p' s e w) inv =
    Signalled-Inv w (move_keeps i call h pc inv h' p' s e)
Step-Inv (spurious {h} {pc} i t e) inv = woken-Inv h pc i t e inv

initial-Inv : Inv initial.handover initial.pc
unfolding initial init_handover
initial-Inv = record { owner = λ j. refl; knows = λ j. tt; history = refl }

pub Reach-Inv : {s u : System} → Reach s u → Inv s.handover s.pc → Inv u.handover u.pc
Reach-Inv start inv = inv
Reach-Inv (later r st) inv = Step-Inv st (Reach-Inv r inv)

-- However the calls of the threads interleave, and whatever wakes them, the values that were put in
-- are those that were taken out, in the same order, and behind them the one in the slot, if it is
-- occupied. No value is lost, taken twice or overtaken.
pub pushed-taken :
    {s : System}
    → Reach initial s
    → s.handover.pushed ≡ s.handover.taken ++ held s.handover.occupied s.handover.slot
pushed-taken r = (Reach-Inv r initial-Inv).history

-- A consumer is only told to end when the handover was aborted, or when it was finished and each
-- value that was put in until then has been taken out.
pub stop-taken :
    {s : System}
    → Reach initial s
    → decide_occupied s.handover.state s.handover.occupied ≡ stop
    → (s.handover.state ≡ abort)
      ⊎ ((s.handover.state ≡ finish) × (s.handover.pushed ≡ s.handover.taken))
unfolding decide_occupied
stop-taken {s} r d = split s.handover.state s.handover.occupied refl refl d
  where
    split :
        (st : RunState) (o : Bool)
        → s.handover.state ≡ st
        → s.handover.occupied ≡ o
        → decide_occupied st o ≡ stop
        → (s.handover.state ≡ abort)
          ⊎ ((s.handover.state ≡ finish) × (s.handover.pushed ≡ s.handover.taken))
    split abort o es eo d = inl es
    split finish true es eo d = absurd (cc)
    split finish false es eo d = inr (
      es,
      pushed-taken r
          ∙ ap (λ b. s.handover.taken ++ held b s.handover.slot) eo
          ∙ append-nil s.handover.taken,
    )
    split running true es eo d = absurd (cc)
    split running false es eo d = absurd (cc)
