-- ===== src/Notify.antt =====
-- The observers of src/notify.c, over the queues of Queue. Each call holds the lock from its start to
-- its end. A NULL filter is one that accepts everything.
pub mod Send
mod Tests
use everarch.Prelude.{
  ℕ, Bool, true, false, Option, none, some, List, [], ◌∷◌, if◌then◌else◌, ◌==◌, ◌||◌, replicate,
}
use everarch.Errors.{Status, ok, error, temporary_occupied}
use everarch.Queue.{Queue, create_queue, queue_put}

-- `address` is the one of the queue, by which an observer is found again.
pub record Observer (A C : Type 0) : Type 0 where
  pub address : ℕ
  pub messages : Queue A
  pub ctx : C

-- the slots of `observers`, where `none` has no queue
abbrev pub Notify : Type 0 → Type 0 → Type 0
Notify A C = List (Option (Observer A C))

unfoldable pub create_notify_ctx : {A C : Type 0} → ℕ → Notify A C
create_notify_ctx observers_len = replicate observers_len none

-- `put_res != evr_ok && put_res != evr_temporary_occupied` makes the call fail
abbrev pub put_fine : Status → Bool
put_fine ok = true
put_fine temporary_occupied = true
put_fine _ = false

module _ {A C : Type 0} (filter : C → A → Bool) (entry : A) where
  abbrev pub sent : Observer A C → Status × Queue A → Bool × Option (Observer A C)
  sent it (put_res, q) = (put_fine put_res, some (record it { messages = q }))

  abbrev pub send_to : Option (Observer A C) → Bool × Option (Observer A C)
  unfolding queue_put
  send_to none = (true, none)
  send_to (some it) =
      if filter it.ctx entry then sent it (queue_put it.messages entry) else (true, some it)

  -- `evr_notify_send`: a queue that fails does not keep the entry from the others.
  unfoldable pub notify_send : Notify A C → Status × Notify A C
  unfolding send_to
  notify_send [] = (ok, [])
  notify_send (it ∷ its) =
      let (fine, after) = send_to it in
      let (ret, afters) = notify_send its in (if fine then ret else error, after ∷ afters)

module _ {A C : Type 0} where
  -- `evr_notify_register`, with the address of the new queue, if there is memory for one
  unfoldable pub notify_register : A → ℕ → Option ℕ → C → Notify A C → Option ℕ × Notify A C
  unfolding create_queue
  notify_register garbage msgs_len_exp alloc ctx [] = (none, [])
  notify_register garbage msgs_len_exp alloc ctx (some it ∷ its) =
      let (ret, afters) = notify_register garbage msgs_len_exp alloc ctx its in
      (ret, some it ∷ afters)
  notify_register garbage msgs_len_exp none ctx (none ∷ its) = (none, none ∷ its)
  notify_register garbage msgs_len_exp (some a) ctx (none ∷ its) = (
    some a,
    some (record { address = a; messages = create_queue garbage msgs_len_exp; ctx = ctx }) ∷ its,
  )

  -- `evr_notify_unregister`; the free waits for no one, since nobody sends under the lock
  unfoldable pub notify_unregister : ℕ → Notify A C → Status × Notify A C
  notify_unregister messages [] = (error, [])
  notify_unregister messages (none ∷ its) =
      let (ret, afters) = notify_unregister messages its in (ret, none ∷ afters)
  notify_unregister messages (some it ∷ its) =
      let (ret, afters) = notify_unregister messages its in
      if it.address == messages then (ok, none ∷ its) else (ret, some it ∷ afters)

  -- what `evr_free_notify_ctx` polls for
  unfoldable pub active_observer : Notify A C → Bool
  active_observer [] = false
  active_observer (none ∷ its) = active_observer its
  active_observer (some it ∷ its) = true
