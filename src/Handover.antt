-- ===== src/Handover.antt =====
-- The handover of src/handover.c between threads, and how its callers put a value into the slot. A
-- thread is a program counter, and each lock, wait, store and signal is a step of its own.
pub mod Invariant
mod Owner
mod Slot
pub mod Moves
pub mod Safety
pub mod Wakeup
mod Tests
use everarch.Prelude.{
  ℕ, zero, suc, ◌≡◌, ◌≢◌, Bool, true, false, ◌&&◌, ◌||◌, not, Option, none, some, List, [], ◌∷◌,
  ◌++◌, if◌then◌else◌, ◌==◌, update,
}

pub data RunState : Type 0 where
  running abort finish : RunState

-- `push v`: evr_wait_for_handover_available, the value, evr_occupy_handover;
-- `take`: evr_wait_for_handover_occupied, the value, evr_empty_handover;
-- `look`: evr_wait_for_handover_occupied, evr_unlock_handover
pub data Task : Type 0 where
  push : ℕ → Task
  take look : Task

pub data Call : Type 0 where
  begin : Task → Call
  -- evr_end_handover with the number of signals
  end_with : RunState → ℕ → Call

pub data Pc : Type 0 where
  idle : Pc
  -- in front of the lock, of the tests of the loop, of cnd_wait; in it, and behind it without the lock
  lock check block sleep woken : Task → Pc
  -- evr_ok was returned, with the lock
  ready : Task → Pc
  stored fetched : ℕ → Pc
  -- in front of the signal, and of the unlock
  notify unlock : Task → Pc
  -- in front of the unlock at out_with_ret_end, and evr_end was returned
  unlock_end ended : Task → Pc
  -- evr_end_handover, with the rounds left of its loop
  set_state : RunState → ℕ → Pc
  signal_push signal_empty : ℕ → Pc

pub data Condition : Type 0 where
  on_push on_empty : Condition

-- `pushed` and `taken` are what the callers have put in and taken out so far.
pub record Handover : Type 0 where
  pub state : RunState
  pub occupied : Bool
  pub owner : Option ℕ
  pub slot : ℕ
  pub pushed : List ℕ
  pub taken : List ℕ

-- `evr_init_handover_ctx`
unfoldable pub init_handover : Handover
init_handover = record {
  state = running;
  occupied = false;
  owner = none;
  slot = 0;
  pushed = [];
  taken = [];
}

pub data Decision : Type 0 where
  go wait stop : Decision

-- The tests of `evr_wait_for_handover_available`.
unfoldable pub decide_available : RunState → Bool → Decision
decide_available abort occupied = stop
decide_available finish occupied = stop
decide_available running occupied = if not occupied then go else wait

-- The tests of `evr_wait_for_handover_occupied`.
unfoldable pub decide_occupied : RunState → Bool → Decision
decide_occupied abort occupied = stop
decide_occupied finish false = stop
decide_occupied finish true = go
decide_occupied running occupied = if occupied then go else wait

abbrev pub decide : Task → RunState → Bool → Decision
unfolding decide_available decide_occupied
decide (push v) state occupied = decide_available state occupied
decide _ state occupied = decide_occupied state occupied

abbrev pub decided : Task → Decision → Pc
decided t go = ready t
decided t wait = block t
decided t stop = unlock_end t

-- the condition on which a wait sleeps, and that which the other side is told by
abbrev pub waits_on : Task → Condition
waits_on (push v) = on_empty
waits_on _ = on_push

abbrev pub tells : Task → Condition
tells (push v) = on_push
tells _ = on_empty

abbrev pub called : Call → Pc
called (begin t) = lock t
called (end_with state thrds) = set_state state thrds

abbrev pub Outcome : Type 0
Outcome = Option (Handover × Pc × Option Condition)

abbrev pub acquire : ℕ → Handover → Task → Option ℕ → Outcome
acquire i h t none = some (record h { owner = some i }, check t, none)
acquire i h t (some j) = none

-- The next step of thread `i`: the state behind it, the place, and the condition it signals. `none`
-- is a thread that cannot go on by itself.
unfoldable pub move : ℕ → Call → Handover → Pc → Outcome
unfolding decide
move i call h idle = some (h, called call, none)
move i call h (ended t) = some (h, called call, none)
move i call h (lock t) = acquire i h t h.owner
move i call h (check t) = some (h, decided t (decide t h.state h.occupied), none)
move i call h (block t) = some (record h { owner = none }, sleep t, none)
move i call h (sleep t) = none
move i call h (woken t) = acquire i h t h.owner
move i call h (ready (push v)) = some (record h { slot = v }, stored v, none)
move i call h (ready take) = some (h, fetched h.slot, none)
move i call h (ready look) = some (h, unlock look, none)
move i call h (stored v) =
    some (record h { occupied = true; pushed = h.pushed ++ (v ∷ []) }, notify (push v), none)
move i call h (fetched v) =
    some (record h { occupied = false; taken = h.taken ++ (v ∷ []) }, notify take, none)
move i call h (notify t) = some (h, unlock t, some (tells t))
move i call h (unlock t) = some (record h { owner = none }, idle, none)
move i call h (unlock_end t) = some (record h { owner = none }, ended t, none)
move i call h (set_state state thrds) = some (record h { state = state }, signal_push thrds, none)
move i call h (signal_push zero) = some (h, idle, none)
move i call h (signal_push (suc thrds)) = some (h, signal_empty thrds, some on_push)
move i call h (signal_empty thrds) = some (h, signal_push thrds, some on_empty)

pub record System : Type 0 where
  pub handover : Handover
  pub pc : ℕ → Pc

-- cnd_signal wakes a thread that sleeps on the condition, if there is one.
pub data Signalled : Option Condition → (ℕ → Pc) → (ℕ → Pc) → Type 0 where
  quiet : {pc : ℕ → Pc} → Signalled none pc pc
  nobody :
      {c : Condition} {pc : ℕ → Pc}
      → ((j : ℕ) (t : Task) → pc j ≡ sleep t → waits_on t ≢ c)
      → Signalled (some c) pc pc
  wakes :
      {c : Condition} {pc : ℕ → Pc} (j : ℕ) (t : Task)
      → pc j ≡ sleep t
      → waits_on t ≡ c
      → Signalled (some c) pc (update pc j (woken t))

pub data Step : System → System → Type 0 where
  moves :
      {h h' : Handover} {pc pc' : ℕ → Pc} (i : ℕ) (call : Call) (p' : Pc)
      (signal : Option Condition)
      → move i call h (pc i) ≡ some (h', p', signal)
      → Signalled signal (update pc i p') pc'
      → Step (record { handover = h; pc = pc }) (record { handover = h'; pc = pc' })
  -- a wait may return with no signal
  spurious :
      {h : Handover} {pc : ℕ → Pc} (i : ℕ) (t : Task)
      → pc i ≡ sleep t
      → Step
          (record { handover = h; pc = pc })
          (record { handover = h; pc = update pc i (woken t) })

pub data Reach : System → System → Type 0 where
  start : {s : System} → Reach s s
  later : {s t u : System} → Reach s t → Step t u → Reach s u

-- all threads outside the functions
unfoldable pub initial : System
unfolding init_handover
initial = record { handover = init_handover; pc = λ i. idle }
