-- ===== src/Persister/Events.antt =====
-- Every event of the persister keeps the order of the tasks, their results and their locks.
use everarch.Prelude.{
  ℕ, ◌≡◌, refl, sym, ap, Bool, true, false, Option, List, [], ◌∷◌, ◌++◌, if◌then◌else◌, ◌==◌,
  update,
}
use everarch.Errors.{Status, is_ok}
use everarch.Persister.{
  Persister, ctx_step, Worker, at_test, waiting, appending, finishing, notifying, ended, Event,
  queue, wait, work, spurious, stop_store, stop_signal, queue_task, notified_with, worker_step,
  happen, happen_all,
}
use everarch.Persister.Order.{in_flight, unfinished, moved-Inv, woken-Inv}
use everarch.Persister.Locks.{lock_keeps}
use everarch.Persister.Steps.{Keeps, IsValid, queued-Inv, tested-Inv, appended-Inv, finished-Inv}

module _ {B G : Type 0} (append : B → ℕ → G → Status × G) (blob : ℕ → B) (g : G)
    (before : ℕ → Option Status) where
  -- fields that the order of the tasks does not depend on
  side-Inv :
      (pending : List ℕ) (p : Persister G) (running : Bool) (sent : List ℕ)
      → Keeps append blob g before pending p
      → Keeps append blob g before pending (record p { working = running; notified = sent })
  side-Inv pending p running sent v = record {
    slots = v.slots;
    order = v.order;
    stored = v.stored;
    truthful = v.truthful;
    results = v.results;
    locked = v.locked;
    distinct = v.distinct;
    asleep = v.asleep;
  }

  waited-Inv :
      (pending : List ℕ) (p : Persister G) (t : ℕ)
      → Keeps append blob g before pending p
      → Keeps append blob g before pending (record p { done_locked = update p.done_locked t true })
  waited-Inv pending p t v = record {
    slots = v.slots;
    order = v.order;
    stored = v.stored;
    truthful = v.truthful;
    results = v.results;
    locked = lock_keeps p.done_locked t (unfinished p.worker ++ pending) v.locked;
    distinct = v.distinct;
    asleep = v.asleep;
  }

  sent-Inv :
      (pending : List ℕ) (p : Persister G) (t : ℕ) (res : Status)
      → p.worker ≡ notifying t
      → Keeps append blob g before pending p
      → Keeps append blob g before pending
          (notified_with append blob (record p { notified = p.notified ++ (t ∷ []) }) res)
  sent-Inv pending p t res e v = split (is_ok res)
    where
      q : Persister G
      q = record p { notified = p.notified ++ (t ∷ []) }

      side : Keeps append blob g before pending q
      side = side-Inv pending p p.working (p.notified ++ (t ∷ [])) v

      split :
          (b : Bool)
          → Keeps append blob g before pending (
              if b then record q { worker = at_test } else record q { worker = ended Status.error })
      split true =
          moved-Inv append blob g before pending q at_test (sym (ap in_flight e))
            (sym (ap unfinished e)) tt side
      split false =
          moved-Inv append blob g before pending q (ended Status.error) (sym (ap in_flight e))
            (sym (ap unfinished e)) tt side

  worker_step-IsValid :
      (pending : List ℕ) (p : Persister G) (now : ℕ) (res : Status) (w : Worker)
      → p.worker ≡ w
      → Keeps append blob g before pending p
      → IsValid append blob g before (worker_step append blob p now res w)
  unfolding worker_step
  worker_step-IsValid pending p now res at_test e v =
      tested-Inv append blob g before pending p p.working (p.writing == p.reading) e refl v
  worker_step-IsValid pending p now res waiting e v = (pending, v)
  worker_step-IsValid pending p now res (appending t) e v =
      (pending, appended-Inv append blob g before pending p t now e v)
  worker_step-IsValid pending p now res (finishing t r) e v =
      (pending, finished-Inv append blob g before pending p t r (is_ok r) e v)
  worker_step-IsValid pending p now res (notifying t) e v = (pending, sent-Inv pending p t res e v)
  worker_step-IsValid pending p now res (ended r) e v = (pending, v)

  happen-IsValid :
      (p : Persister G) (e : Event)
      → IsValid append blob g before p
      → IsValid append blob g before (happen append blob p e)
  unfolding happen queue_task
  happen-IsValid p (queue t) (pending, v) = split (p.done_locked t) refl
    where
      split :
          (b : Bool)
          → p.done_locked t ≡ b
          → IsValid append blob g before (if b then p else (queue_task append blob p t).1)
      split true e = (pending, v)
      split false e =
          queued-Inv append blob g before pending p t (ctx_step p.writing == p.reading) refl e v
  happen-IsValid p (wait t) (pending, v) = split (p.done_locked t)
    where
      split :
          (b : Bool)
          → IsValid append blob g before
              (if b then p else record p { done_locked = update p.done_locked t true })
      split true = (pending, v)
      split false = (pending, waited-Inv pending p t v)
  happen-IsValid p (work now res) (pending, v) =
      worker_step-IsValid pending p now res p.worker refl v
  happen-IsValid p spurious (pending, v) = (pending, woken-Inv append blob g before pending p v)
  happen-IsValid p stop_store (pending, v) = (pending, side-Inv pending p false p.notified v)
  happen-IsValid p stop_signal (pending, v) = (pending, woken-Inv append blob g before pending p v)

  pub happen_all-IsValid :
      (p : Persister G) (es : List Event)
      → IsValid append blob g before p
      → IsValid append blob g before (happen_all append blob p es)
  unfolding happen_all
  happen_all-IsValid p [] v = v
  happen_all-IsValid p (e ∷ es) v =
      happen_all-IsValid (happen append blob p e) es (happen-IsValid p e v)
