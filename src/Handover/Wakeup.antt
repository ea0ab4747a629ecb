-- ===== src/Handover/Wakeup.antt =====
-- evr_end_handover sets the state and signals without the lock.
use everarch.Prelude.{
  ℕ, zero, suc, ◌≡◌, ◌≢◌, ap, ◌∙◌, Bool, true, false, none, some, arith, if◌then◌else◌, ◌==◌,
  update, ne→==,
}
use everarch.Handover.{
  RunState, Task, begin, Pc, idle, block, sleep, signal_push, signal_empty, set_state, on_push,
  on_empty, Handover, move, quiet, nobody, System, moves, Reach, later, initial,
}

-- nobody is in cnd_wait
abbrev pub Awake : (ℕ → Pc) → Type 0
Awake pc = (m : ℕ) (u : Task) → pc m ≢ sleep u

-- a thread that is in front of a place where nobody sleeps keeps the others awake
update-Awake :
    (pc : ℕ → Pc) (j : ℕ) (p : Pc) → Awake pc → ((u : Task) → p ≢ sleep u) → Awake (update pc j p)
update-Awake pc j p a n m u = split (j == m)
  where
    split : (b : Bool) → (if b then p else pc m) ≢ sleep u
    split true = n u
    split false = a m u

update_self : (pc : ℕ → Pc) (j : ℕ) (p : Pc) → update pc j p j ≡ p
update_self pc j p = ground arith

update_other : (pc : ℕ → Pc) (j m : ℕ) (p : Pc) → j ≢ m → update pc j p m ≡ pc m
update_other pc j m p ne = ap (λ b. if b then p else pc m) (ne→== j m ne)

-- Where thread `j` has come back from the call, and the others stand where they stood.
abbrev Back : System → Handover → (ℕ → Pc) → ℕ → Type 0
Back s h pc j =
    (pc' : ℕ → Pc) × Reach s (record { handover = h; pc = pc' })
    × (pc' j ≡ idle)
    × ((m : ℕ) → j ≢ m → pc' m ≡ pc m)

carry_on :
    (s : System) (h : Handover) (pc : ℕ → Pc) (j : ℕ) (p : Pc)
    → Back s h (update pc j p) j
    → Back s h pc j
carry_on s h pc j p (pc', r, e, o) = (pc', r, e, λ m ne. o m ne ∙ update_other pc j m p ne)

-- The rounds of the loop wake nobody if nobody sleeps.
signals_lem :
    (s : System) (h : Handover) (pc : ℕ → Pc) (j k : ℕ)
    → Reach s (record { handover = h; pc = pc })
    → pc j ≡ signal_push k
    → Awake pc
    → Back s h pc j
unfolding move
signals_lem s h pc j zero r e a = (
  update pc j idle,
  later r (moves j (begin Task.take) idle none (ap (move j (begin Task.take) h) e) quiet),
  update_self pc j idle,
  λ m ne. update_other pc j m idle ne,
)
signals_lem s h pc j (suc k) r e a =
    let pc1 : ℕ → Pc = update pc j (signal_empty k) in
    let a1 : Awake pc1 = update-Awake pc j (signal_empty k) a (λ u. cc) in
    let r1 : Reach s (record { handover = h; pc = pc1 }) = later r (
      moves j (begin Task.take) (signal_empty k) (some on_push) (ap (move j (begin Task.take) h) e)
        (nobody (λ m u q _. a1 m u q))) in
    let pc2 : ℕ → Pc = update pc1 j (signal_push k) in
    let a2 : Awake pc2 = update-Awake pc1 j (signal_push k) a1 (λ u. cc) in
    let r2 : Reach s (record { handover = h; pc = pc2 }) = later r1 (
      moves j (begin Task.take) (signal_push k) (some on_empty)
        (ap (move j (begin Task.take) h) (update_self pc j (signal_empty k)))
        (nobody (λ m u q _. a2 m u q))) in
    carry_on s h pc j (signal_empty k) (
      carry_on s h pc1 j (signal_push k)
        (signals_lem s h pc2 j k r2 (update_self pc1 j (signal_push k)) a2))

-- When a thread has made the tests of its loop and is in front of cnd_wait, and nobody sleeps, another
-- one that is at the start of evr_end_handover can run it to its end, however many signals it sends.
-- Then the first one goes to sleep although the state already says that it should end: all signals
-- of evr_end_handover are gone, that thread has returned, and every other stands where it stood.
pub end_handover_misses :
    (h : Handover) (pc : ℕ → Pc) (i j k : ℕ) (t : Task) (state : RunState)
    → Reach initial (record { handover = h; pc = pc })
    → pc i ≡ block t
    → pc j ≡ set_state state k
    → Awake pc
    → (pc' : ℕ → Pc) × Reach initial
        (record { handover = record h { state = state; owner = none }; pc = pc' })
      × (pc' i ≡ sleep t)
      × (pc' j ≡ idle)
      × ((m : ℕ) → i ≢ m → j ≢ m → pc' m ≡ pc m)
unfolding move
end_handover_misses h pc i j k t state r ei ej a = asleep (
    signals_lem initial h1 pc1 j k
      (later r (moves j (begin t) (signal_push k) none (ap (move j (begin t) h) ej) quiet))
      (update_self pc j (signal_push k)) (update-Awake pc j (signal_push k) a (λ u. cc)))
  where
    h1 : Handover
    h1 = record h { state = state }

    pc1 : ℕ → Pc
    pc1 = update pc j (signal_push k)

    ij : i ≢ j
    ij e = cc (ap pc e)

    ji : j ≢ i
    ji e = cc (ap pc e)

    asleep :
        Back initial h1 pc1 j
        → (pc' : ℕ → Pc) × Reach initial
            (record { handover = record h { state = state; owner = none }; pc = pc' })
          × (pc' i ≡ sleep t)
          × (pc' j ≡ idle)
          × ((m : ℕ) → i ≢ m → j ≢ m → pc' m ≡ pc m)
    asleep (pc2, r2, e2, o2) = (
      update pc2 i (sleep t),
      later r2 (
          moves i (begin t) (sleep t) none
            (ap (move i (begin t) h1) (o2 i ji ∙ update_other pc j i (signal_push k) ji ∙ ei))
            quiet),
      update_self pc2 i (sleep t),
      update_other pc2 i j (sleep t) ij ∙ e2,
      λ m mi mj.
          update_other pc2 i m (sleep t) mi ∙ o2 m mj ∙ update_other pc j m (signal_push k) mj,
    )
