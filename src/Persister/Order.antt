-- ===== src/Persister/Order.antt =====
-- What holds between any two events of the persister.
use everarch.Prelude.{
  ℕ, ◌≡◌, ◌≢◌, refl, sym, ap, ◌∙◌, Bool, true, Option, some, List, [], ◌∷◌, ◌++◌, All, arith,
  if◌then◌else◌, ◌==◌, subst, inl, length-replicate,
}
use everarch.Errors.{Status}
use everarch.Queue.Slots.{Slots}
use everarch.Persister.{
  Persister, tasks_len, Worker, at_test, waiting, appending, finishing, notifying, ended, woken,
  persister_start,
}

-- the task that the worker has taken and has no result of
abbrev pub in_flight : Worker → List ℕ
in_flight (appending t) = t ∷ []
in_flight _ = []

-- the task whose `done` the worker has to unlock
abbrev pub unfinished : Worker → List ℕ
unfinished (appending t) = t ∷ []
unfinished (finishing t res) = t ∷ []
unfinished _ = []

-- the tasks in the order of their results
abbrev pub tasks_of : List (ℕ × ℕ × Status) → List ℕ
tasks_of [] = []
tasks_of ((t, now, res) ∷ ps) = tasks_of ps ++ (t ∷ [])

-- the last result of a task, where `before` is what its field held at first
abbrev pub latest : (ℕ → Option Status) → List (ℕ × ℕ × Status) → ℕ → Option Status
latest before [] t = before t
latest before ((u, now, res) ∷ ps) t = if u == t then some res else latest before ps t

abbrev pub Distinct : List ℕ → Type 0
Distinct [] = Unit {0}
Distinct (x ∷ xs) = All (λ y. x ≢ y) xs × Distinct xs

-- A worker sleeps only when nothing is to do.
abbrev pub Asleep : Worker → List ℕ → Type 0
Asleep waiting pending = pending ≡ []
Asleep _ pending = Unit {0}

abbrev pub Locked : (ℕ → Bool) → List ℕ → Type 0
Locked locked ts = All (λ t. locked t ≡ true) ts

module _ {B G : Type 0} (append : B → ℕ → G → Status × G) (blob : ℕ → B) (g : G)
    (before : ℕ → Option Status) where
  -- the write context after appending the blobs of some tasks, the last in front
  abbrev pub replay : List (ℕ × ℕ × Status) → G
  replay [] = g
  replay ((t, now, res) ∷ ps) = (append (blob t) now (replay ps)).1

  -- Each result is the one of evr_glacier_append_blob on the context behind the earlier tasks.
  abbrev pub Truthful : List (ℕ × ℕ × Status) → Type 0
  Truthful [] = Unit {0}
  Truthful ((t, now, res) ∷ ps) = ((append (blob t) now (replay ps)).0 ≡ res) × Truthful ps

  -- `pending` are the tasks in the ring.
  pub record Inv (pending : List ℕ) (p : Persister G) : Type 0 where
    pub slots : Slots tasks_len 0 pending p.tasks p.writing p.reading
    pub order : p.accepted ≡ tasks_of p.persisted ++ (in_flight p.worker ++ pending)
    pub stored : p.write_ctx ≡ replay p.persisted
    pub truthful : Truthful p.persisted
    pub results : (t : ℕ) → p.result t ≡ latest before p.persisted t
    pub locked : Locked p.done_locked (unfinished p.worker ++ pending)
    pub distinct : Distinct (unfinished p.worker ++ pending)
    pub asleep : Asleep p.worker pending

  pub persister_start-Inv :
      (garbage : ℕ) (locked : ℕ → Bool) (modified : ℕ → ℕ)
      → Inv [] (persister_start append blob garbage g locked before modified)
  unfolding persister_start
  persister_start-Inv garbage locked modified = record {
    slots = record {
      len = length-replicate tasks_len garbage;
      reading = omega arith;
      writing = omega arith;
      fits = omega arith;
      ends = inl (omega arith);
      same = refl;
    };
    order = refl;
    stored = refl;
    truthful = tt;
    results = λ t. refl;
    locked = tt;
    distinct = tt;
    asleep = tt;
  }

  -- a step of the worker that finishes nothing
  pub moved-Inv :
      (pending : List ℕ) (p : Persister G) (w : Worker)
      → in_flight w ≡ in_flight p.worker
      → unfinished w ≡ unfinished p.worker
      → Asleep w pending
      → Inv pending p
      → Inv pending (record p { worker = w })
  moved-Inv pending p w fl un as_ v = record {
    slots = v.slots;
    order = v.order ∙ ap (λ xs. tasks_of p.persisted ++ (xs ++ pending)) (sym fl);
    stored = v.stored;
    truthful = v.truthful;
    results = v.results;
    locked = subst (λ xs. Locked p.done_locked (xs ++ pending)) (sym un) v.locked;
    distinct = subst (λ xs. Distinct (xs ++ pending)) (sym un) v.distinct;
    asleep = as_;
  }

  pub woken-Inv :
      (pending : List ℕ) (p : Persister G)
      → Inv pending p
      → Inv pending (record p { worker = woken p.worker })
  woken-Inv pending p v =
      moved-Inv pending p (woken p.worker) (flight p.worker) (unlocked p.worker) (awake p.worker) v
    where
      flight : (w : Worker) → in_flight (woken w) ≡ in_flight w
      flight waiting = refl
      flight at_test = refl
      flight (appending t) = refl
      flight (finishing t r) = refl
      flight (notifying t) = refl
      flight (ended r) = refl

      unlocked : (w : Worker) → unfinished (woken w) ≡ unfinished w
      unlocked waiting = refl
      unlocked at_test = refl
      unlocked (appending t) = refl
      unlocked (finishing t r) = refl
      unlocked (notifying t) = refl
      unlocked (ended r) = refl

      awake : (w : Worker) → Asleep (woken w) pending
      awake waiting = tt
      awake at_test = tt
      awake (appending t) = tt
      awake (finishing t r) = tt
      awake (notifying t) = tt
      awake (ended r) = tt
