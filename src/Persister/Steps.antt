-- ===== src/Persister/Steps.antt =====
-- The steps of the worker and the queueing of a task keep the order, the results and the locks.
use everarch.Prelude.{
  ℕ, ◌≡◌, ◌≢◌, refl, sym, ap, ◌∙◌, subst, Bool, true, false, Option, some, List, [], ◌∷◌, ◌++◌, All,
  if◌then◌else◌, ◌==◌, ==_iff, ==_ne, update, append_assoc,
}
use everarch.Errors.{Status, ok}
use everarch.Queue.Ring.{EndsAt-here}
use everarch.Queue.Slots.{put-Slots, take-Slots, Slots-empty, Slots-room}
use everarch.Persister.{
  Persister, tasks_len, ctx_step, Worker, at_test, waiting, appending, finishing, notifying, ended,
  woken, queue_next, worker_test, appended,
}
use everarch.Persister.Order.{
  in_flight, unfinished, tasks_of, Distinct, Asleep, Locked, Inv, moved-Inv, woken-Inv,
}
use everarch.Persister.Locks.{lock_snoc, unlock_keeps, Distinct-snoc}

module _ {B G : Type 0} (append : B → ℕ → G → Status × G) (blob : ℕ → B) (g : G)
    (before : ℕ → Option Status) where
  abbrev pub Keeps : List ℕ → Persister G → Type 0
  Keeps pending p = Inv append blob g before pending p

  abbrev pub IsValid : Persister G → Type 0
  IsValid p = (pending : List ℕ) × Inv append blob g before pending p

  pub queued-Inv :
      (pending : List ℕ) (p : Persister G) (t : ℕ) (b : Bool)
      → (ctx_step p.writing == p.reading) ≡ b
      → p.done_locked t ≡ false
      → Keeps pending p
      → IsValid (queue_next append blob p t b).1
  queued-Inv pending p t true e f v = (pending, woken-Inv append blob g before pending p v)
  queued-Inv pending p t false e f v = (
    pending ++ (t ∷ []),
    record {
      slots =
          put-Slots tasks_len 0 pending p.tasks p.writing p.reading t
            (Slots-room tasks_len 0 pending p.tasks p.writing p.reading v.slots
              (==_ne (ctx_step p.writing) p.reading e))
            v.slots;
      order =
          ap (λ xs. xs ++ (t ∷ [])) w.order
          ∙ append_assoc (tasks_of p.persisted) (in_flight (woken p.worker) ++ pending) (t ∷ [])
          ∙ ap (λ xs. tasks_of p.persisted ++ xs)
              (append_assoc (in_flight (woken p.worker)) pending (t ∷ []));
      stored = v.stored;
      truthful = v.truthful;
      results = v.results;
      locked =
          subst (Locked (update p.done_locked t true))
            (append_assoc (unfinished (woken p.worker)) pending (t ∷ []))
            (lock_snoc p.done_locked t (unfinished (woken p.worker) ++ pending) w.locked);
      distinct = subst Distinct (append_assoc (unfinished (woken p.worker)) pending (t ∷ [])) (
          Distinct-snoc p.done_locked t (unfinished (woken p.worker) ++ pending) f w.locked
            w.distinct);
      asleep = awake p.worker;
    },
  )
    where
      w : Keeps pending (record p { worker = woken p.worker })
      w = woken-Inv append blob g before pending p v

      awake : (x : Worker) → Asleep (woken x) (pending ++ (t ∷ []))
      awake waiting = tt
      awake at_test = tt
      awake (appending u) = tt
      awake (finishing u r) = tt
      awake (notifying u) = tt
      awake (ended r) = tt

  -- the worker takes the task that is next
  taken-Inv :
      (pending : List ℕ) (p : Persister G)
      → p.worker ≡ at_test
      → p.writing ≢ p.reading
      → Keeps pending p
      → IsValid (worker_test append blob p true false)
  taken-Inv [] p e ne v =
      absurd (ne (sym (EndsAt-here tasks_len p.writing p.reading v.slots.reading v.slots.ends)))
  taken-Inv (t ∷ ts) p e ne v =
      let (same, rest) = take-Slots tasks_len 0 t ts p.tasks p.writing p.reading v.slots in
      (
        ts,
        record {
          slots = rest;
          order =
              v.order
              ∙ ap (λ w. tasks_of p.persisted ++ (in_flight w ++ (t ∷ ts))) e
              ∙ ap (λ x. tasks_of p.persisted ++ (x ∷ ts)) (sym same);
          stored = v.stored;
          truthful = v.truthful;
          results = v.results;
          locked =
              subst (λ x. Locked p.done_locked (x ∷ ts)) (sym same)
                (subst (λ w. Locked p.done_locked (unfinished w ++ (t ∷ ts))) e v.locked);
          distinct =
              subst (λ x. Distinct (x ∷ ts)) (sym same)
                (subst (λ w. Distinct (unfinished w ++ (t ∷ ts))) e v.distinct);
          asleep = tt;
        },
      )

  pub tested-Inv :
      (pending : List ℕ) (p : Persister G) (running empty : Bool)
      → p.worker ≡ at_test
      → (p.writing == p.reading) ≡ empty
      → Keeps pending p
      → IsValid (worker_test append blob p running empty)
  tested-Inv pending p false empty e f v = (
    pending,
    moved-Inv append blob g before pending p (ended ok) (sym (ap in_flight e))
        (sym (ap unfinished e)) tt v,
  )
  tested-Inv pending p true true e f v = (
    pending,
    moved-Inv append blob g before pending p waiting (sym (ap in_flight e)) (sym (ap unfinished e))
        (Slots-empty tasks_len 0 pending p.tasks p.writing p.reading v.slots
          ((==_iff p.writing p.reading).0 f))
        v,
  )
  tested-Inv pending p true false e f v = taken-Inv pending p e (==_ne p.writing p.reading f) v

  pub appended-Inv :
      (pending : List ℕ) (p : Persister G) (t now : ℕ)
      → p.worker ≡ appending t
      → Keeps pending p
      → Keeps pending (appended append blob p t now (append (blob t) now p.write_ctx))
  appended-Inv pending p t now e v = record {
    slots = v.slots;
    order =
        v.order
        ∙ ap (λ w. tasks_of p.persisted ++ (in_flight w ++ pending)) e
        ∙ sym (append_assoc (tasks_of p.persisted) (t ∷ []) pending);
    stored = ap (λ x. (append (blob t) now x).1) v.stored;
    truthful = (sym (ap (λ x. (append (blob t) now x).0) v.stored), v.truthful);
    results =
        λ u. ap (λ o. if t == u then some (append (blob t) now p.write_ctx).0 else o) (v.results u);
    locked = subst (λ w. Locked p.done_locked (unfinished w ++ pending)) e v.locked;
    distinct = subst (λ w. Distinct (unfinished w ++ pending)) e v.distinct;
    asleep = tt;
  }

  pub finished-Inv :
      (pending : List ℕ) (p : Persister G) (t : ℕ) (res : Status) (b : Bool)
      → p.worker ≡ finishing t res
      → Keeps pending p
      → Keeps pending (record p {
        worker = if b then notifying t else at_test;
        done_locked = update p.done_locked t false;
      })
  finished-Inv pending p t res b e v = split b
    where
      distinct : All (λ y. t ≢ y) pending × Distinct pending
      distinct = subst (λ w. Distinct (unfinished w ++ pending)) e v.distinct

      locked : (p.done_locked t ≡ true) × Locked p.done_locked pending
      locked = subst (λ w. Locked p.done_locked (unfinished w ++ pending)) e v.locked

      behind :
          (w : Worker)
          → in_flight w ≡ []
          → unfinished w ≡ []
          → Asleep w pending
          → Keeps pending (record p { worker = w; done_locked = update p.done_locked t false })
      behind w fl un as_ = record {
        slots = v.slots;
        order =
            v.order
            ∙ ap (λ x. tasks_of p.persisted ++ (in_flight x ++ pending)) e
            ∙ ap (λ x. tasks_of p.persisted ++ (x ++ pending)) (sym fl);
        stored = v.stored;
        truthful = v.truthful;
        results = v.results;
        locked =
            subst (λ x. Locked (update p.done_locked t false) (x ++ pending)) (sym un)
              (unlock_keeps p.done_locked t pending distinct.0 locked.1);
        distinct = subst (λ x. Distinct (x ++ pending)) (sym un) distinct.1;
        asleep = as_;
      }

      split :
          (b : Bool)
          → Keeps pending (record p {
            worker = if b then notifying t else at_test;
            done_locked = update p.done_locked t false;
          })
      split true = behind (notifying t) refl refl tt
      split false = behind at_test refl refl tt
