-- ===== src/Persister/Tasks.antt =====
-- What clients of the persister can rely on, however their calls and the worker interleave.
use everarch.Prelude.{
  ℕ, ◌≤◌, ◌<◌, ◌≡◌, ◌⊎◌, inl, inr, sym, ap, ◌∙◌, subst, Bool, true, false, Option, some, List, [],
  ◌∷◌, ◌++◌, arith, if◌then◌else◌, ◌==◌, ==_iff, ==_ne, append-nil, length, Bool-cases,
}
use everarch.Errors.{Status, ok, temporary_occupied}
use everarch.Queue.Slots.{Slots-room, Slots-full}
use everarch.Persister.{
  Persister, tasks_len, ctx_step, Worker, waiting, ended, Event, queue_task, queue_next, happen_all,
  persister_start,
}
use everarch.Persister.Order.{
  in_flight, unfinished, tasks_of, latest, Locked, replay, Asleep, Truthful, persister_start-Inv,
}
use everarch.Persister.Steps.{IsValid}
use everarch.Persister.Events.{happen_all-IsValid}

abbrev pub IsIn : ℕ → List ℕ → Type 0
IsIn t [] = ⊥
IsIn t (u ∷ us) = (t ≡ u) ⊎ IsIn t us

IsIn-append : (t : ℕ) (xs ys : List ℕ) → IsIn t (xs ++ ys) → IsIn t xs ⊎ IsIn t ys
IsIn-append t [] ys h = inr h
IsIn-append t (x ∷ xs) ys (inl e) = inl (inl e)
IsIn-append t (x ∷ xs) ys (inr h) = elim (IsIn-append t xs ys h) [
  | inl a ↦ inl (inr a)
  | inr b ↦ inr b
]

Locked-IsIn :
    (locked : ℕ → Bool) (t : ℕ) (ts : List ℕ) → Locked locked ts → IsIn t ts → locked t ≡ true
Locked-IsIn locked t [] h i = absurd i
Locked-IsIn locked t (u ∷ ts) (h, hs) (inl e) = ap locked e ∙ h
Locked-IsIn locked t (u ∷ ts) (h, hs) (inr i) = Locked-IsIn locked t ts hs i

flight-unfinished :
    (t : ℕ) (w : Worker) (xs : List ℕ) → IsIn t (in_flight w ++ xs) → IsIn t (unfinished w ++ xs)
flight-unfinished t (Worker.appending u) xs h = h
flight-unfinished t (Worker.finishing u r) xs h = inr h
flight-unfinished t Worker.at_test xs h = h
flight-unfinished t waiting xs h = h
flight-unfinished t (Worker.notifying u) xs h = h
flight-unfinished t (ended r) xs h = h

-- A task with a result was given to evr_glacier_append_blob.
latest-some :
    (before : ℕ → Option Status) (ps : List (ℕ × ℕ × Status)) (t : ℕ)
    → IsIn t (tasks_of ps)
    → (res : Status) × (latest before ps t ≡ some res)
latest-some before [] t h = absurd h
latest-some before ((u, now, res) ∷ ps) t h = elim (Bool-cases (u == t)) [
  | inl e ↦ (res, ap (λ b. if b then some res else latest before ps t) e)
  | inr n ↦ elim (IsIn-append t (tasks_of ps) (u ∷ []) h) [
    | inl i ↦
        let (r, q) = latest-some before ps t i in
        (r, ap (λ b. if b then some res else latest before ps t) n ∙ q)
    | inr i ↦ elim i [ inl e ↦ absurd (==_ne u t n (sym e)) | inr z ↦ absurd z ]
  ]
]

module _ {B G : Type 0} (append : B → ℕ → G → Status × G) (blob : ℕ → B) (garbage : ℕ) (g : G)
    (locked : ℕ → Bool) (before : ℕ → Option Status) (modified : ℕ → ℕ) (es : List Event) where
  -- the persister after some events
  unfoldable abbrev pub reached : Persister G
  unfolding persister_start happen_all
  reached = happen_all append blob (persister_start append blob garbage g locked before modified) es

  reached-IsValid : IsValid append blob g before reached
  unfolding reached
  reached-IsValid =
      happen_all-IsValid append blob g before
        (persister_start append blob garbage g locked before modified) es
        ([], persister_start-Inv append blob g before garbage locked modified)

  -- However the clients and the worker take turns, the worker has appended the blobs of the tasks
  -- one after the other in the order in which they were accepted, and at most 33 accepted tasks are
  -- still to be appended. The write context is the one behind these appends, and each task's result
  -- is what evr_glacier_append_blob returned for it.
  pub persisted_in_order :
      (rest : List ℕ) × (reached.accepted ≡ tasks_of reached.persisted ++ rest)
      × (length rest ≤ 33)
      × (reached.write_ctx ≡ replay append blob g before reached.persisted)
      × Truthful append blob g before reached.persisted
  unfolding reached
  persisted_in_order =
      let (pending, v) = reached-IsValid in
      (
        in_flight reached.worker ++ pending,
        v.order,
        few reached.worker pending v.slots.fits,
        v.stored,
        v.truthful,
      )
    where
      few : (w : Worker) (xs : List ℕ) → length xs < 33 → length (in_flight w ++ xs) ≤ 33
      few (Worker.appending u) xs h = omega (arith, h)
      few (Worker.finishing u r) xs h = omega (arith, h)
      few Worker.at_test xs h = omega (arith, h)
      few waiting xs h = omega (arith, h)
      few (Worker.notifying u) xs h = omega (arith, h)
      few (ended r) xs h = omega (arith, h)

  pub unfinished-Locked :
      (t : ℕ)
      → IsIn t reached.accepted
      → (IsIn t (tasks_of reached.persisted)) ⊎ (reached.done_locked t ≡ true)
  unfolding reached
  unfinished-Locked t i =
      let (pending, v) = reached-IsValid in
      elim (IsIn-append t (tasks_of reached.persisted) (in_flight reached.worker ++ pending)
        (subst (IsIn t) v.order i)) [
          | inl a ↦ inl a
          | inr b ↦ inr (
              Locked-IsIn reached.done_locked t (unfinished reached.worker ++ pending) v.locked
                (flight-unfinished t reached.worker pending b))
        ]

  -- When the `done` of an accepted task is free, so that evr_persister_wait_for_task returns, the
  -- worker has appended its blob, and the task's result is there: the last one that
  -- evr_glacier_append_blob returned for it.
  pub wait-result :
      (t : ℕ)
      → IsIn t reached.accepted
      → reached.done_locked t ≡ false
      → IsIn t (tasks_of reached.persisted)
        × ((res : Status) × (reached.result t ≡ some res)
            × (latest before reached.persisted t ≡ some res))
  unfolding reached
  wait-result t i free = elim (unfinished-Locked t i) [
    | inr b ↦ absurd (clash b)
    | inl a ↦
        let (pending, v) = reached-IsValid in
        let (res, q) = latest-some before reached.persisted t a in (a, (res, v.results t ∙ q, q))
  ]
    where
      clash : reached.done_locked t ≡ true → ⊥
      clash b = cc

  -- While the worker sleeps on has_tasks, every accepted task has been appended: no signal was lost.
  pub waiting-accepted : reached.worker ≡ waiting → reached.accepted ≡ tasks_of reached.persisted
  unfolding reached
  waiting-accepted e =
      let (pending, v) = reached-IsValid in
      v.order
      ∙ ap (λ xs. tasks_of reached.persisted ++ (in_flight reached.worker ++ xs))
          (subst (λ w. Asleep w pending) e v.asleep)
      ∙ ap (λ w. tasks_of reached.persisted ++ (in_flight w ++ [])) e
      ∙ append-nil (tasks_of reached.persisted)

  -- evr_persister_queue_task accepts a task behind the others when fewer than 32 are in the ring. With
  -- 32 of them it returns temporary_occupied and accepts nothing.
  pub queue_task_refines :
      (task : ℕ)
      → (pending : List ℕ) × (reached.accepted
          ≡ tasks_of reached.persisted ++ (in_flight reached.worker ++ pending))
        × (((length pending < 32)
              × ((queue_task append blob reached task).0 ≡ ok)
              × ((queue_task append blob reached task).1.accepted
                  ≡ reached.accepted ++ (task ∷ [])))
            ⊎ ((length pending ≡ 32)
                × ((queue_task append blob reached task).0 ≡ temporary_occupied)
                × ((queue_task append blob reached task).1.accepted ≡ reached.accepted)))
  unfolding reached queue_task
  queue_task_refines task =
      let (pending, v) = reached-IsValid in
      (
        pending,
        v.order,
        elim (Bool-cases (ctx_step reached.writing == reached.reading)) [
          | inl e ↦ inr (
              (
                omega (
                  arith,
                  Slots-full tasks_len 0 pending reached.tasks reached.writing reached.reading
                      v.slots ((==_iff (ctx_step reached.writing) reached.reading).0 e),
                ),
                ap (λ b. (queue_next append blob reached task b).0) e,
                ap (λ b. (queue_next append blob reached task b).1.accepted) e,
              ))
          | inr n ↦ inl (
              (
                omega (
                  arith,
                  Slots-room tasks_len 0 pending reached.tasks reached.writing reached.reading
                      v.slots (==_ne (ctx_step reached.writing) reached.reading n),
                ),
                ap (λ b. (queue_next append blob reached task b).0) n,
                ap (λ b. (queue_next append blob reached task b).1.accepted) n,
              ))
        ],
      )
