-- ===== src/Persister/Stop.antt =====
-- What is left when the worker of the persister ends.
use everarch.Prelude.{
  ℕ, ◌≡◌, inl, inr, sym, ap, subst, Bool, true, false, Option, List, [], ◌∷◌, arith, if◌then◌else◌,
  ◌==◌, update,
}
use everarch.Errors.{Status}
use everarch.Persister.{
  Persister, ctx_step, Worker, ended, woken, Event, queue, wait, work, spurious, stop_store,
  stop_signal, queue_task, queue_next, worker_step, happen, happen_all,
}
use everarch.Persister.Order.{tasks_of}
use everarch.Persister.Tasks.{IsIn, reached, unfinished-Locked}

module _ {B G : Type 0} (append : B → ℕ → G → Status × G) (blob : ℕ → B) where
  -- Where the worker has ended, and the `done` of a task is locked.
  abbrev Stuck : Status → ℕ → Persister G → Type 0
  Stuck r t p = (p.worker ≡ ended r) × (p.done_locked t ≡ true)

  queue_next-Stuck :
      (r : Status) (t task : ℕ) (p : Persister G) (b : Bool)
      → Stuck r t p
      → Stuck r t (queue_next append blob p task b).1
  queue_next-Stuck r t task p true (w, d) = (ap Worker-woken w, d)
    where
      Worker-woken : Worker → Worker
      Worker-woken = woken
  queue_next-Stuck r t task p false (w, d) = (ap woken w, ground arith)

  happen-Stuck :
      (r : Status) (t : ℕ) (p : Persister G) (e : Event)
      → Stuck r t p
      → Stuck r t (happen append blob p e)
  unfolding happen queue_task worker_step
  happen-Stuck r t p (queue task) h = split (p.done_locked task)
    where
      split : (b : Bool) → Stuck r t (if b then p else (queue_task append blob p task).1)
      split true = h
      split false = queue_next-Stuck r t task p (ctx_step p.writing == p.reading) h
  happen-Stuck r t p (wait task) (w, d) = split (p.done_locked task)
    where
      split :
          (b : Bool)
          → Stuck r t (if b then p else record p { done_locked = update p.done_locked task true })
      split true = (w, d)
      split false = (w, ground arith)
  happen-Stuck r t p (work now res) (w, d) =
      subst (λ x. Stuck r t (worker_step append blob p now res x)) (sym w) (w, d)
  happen-Stuck r t p spurious (w, d) = (ap woken w, d)
  happen-Stuck r t p stop_store (w, d) = (w, d)
  happen-Stuck r t p stop_signal (w, d) = (ap woken w, d)

  happen_all-Stuck :
      (r : Status) (t : ℕ) (p : Persister G) (es : List Event)
      → Stuck r t p
      → Stuck r t (happen_all append blob p es)
  unfolding happen_all
  happen_all-Stuck r t p [] h = h
  happen_all-Stuck r t p (e ∷ es) h =
      happen_all-Stuck r t (happen append blob p e) es (happen-Stuck r t p e h)

-- A task that was accepted and is not appended when the worker ends, as after evr_persister_stop, is
-- never done: whatever happens then, its `done` stays locked, and evr_persister_wait_for_task does
-- not return.
pub ended-strands :
    {B G : Type 0} (append : B → ℕ → G → Status × G) (blob : ℕ → B) (garbage : ℕ) (g : G)
    (locked : ℕ → Bool) (before : ℕ → Option Status) (modified : ℕ → ℕ) (es : List Event)
    (r : Status) (t : ℕ) (fs : List Event)
    → (reached append blob garbage g locked before modified es).worker ≡ ended r
    → IsIn t (reached append blob garbage g locked before modified es).accepted
    → (IsIn t (tasks_of (reached append blob garbage g locked before modified es).persisted) → ⊥)
    → (happen_all append blob
          (reached append blob garbage g locked before modified es)
          fs).done_locked
        t
      ≡ true
ended-strands append blob garbage g locked before modified es r t fs w i left =
    elim (unfinished-Locked append blob garbage g locked before modified es t i) [
      | inl a ↦ absurd (left a)
      | inr d ↦
          (happen_all-Stuck append blob r t
            (reached append blob garbage g locked before modified es) fs (w, d)).1
    ]
