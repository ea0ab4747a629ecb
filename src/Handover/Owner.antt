-- ===== src/Handover/Owner.antt =====
-- Each step of a thread keeps who owns the lock.
use everarch.Prelude.{ℕ, zero, suc, ◌≡◌, refl, true, false, Option, none, some, arith, update}
use everarch.Handover.{
  Task, push, take, look, Call, Pc, idle, lock, check, block, sleep, woken, ready, stored, fetched,
  notify, unlock, unlock_end, ended, set_state, signal_push, signal_empty, Handover, Decision, go,
  wait, stop, decide, decided, called, acquire, Outcome, move,
}
use everarch.Handover.Invariant.{holds, owns, Inv}

holds-decided : (t : Task) (d : Decision) → holds (decided t d) ≡ true
holds-decided t go = refl
holds-decided t wait = refl
holds-decided t stop = refl

module _ (i : ℕ) (call : Call) (h : Handover) (pc : ℕ → Pc) (inv : Inv h pc) where
  abbrev pub Owner : Outcome → Type 0
  Owner none = Unit {0}
  Owner (some (h', p', s)) = (j : ℕ) → holds (update pc i p' j) ≡ owns h'.owner j

  same-Owner :
      (p p' : Pc)
      → pc i ≡ p
      → holds p' ≡ holds p
      → (j : ℕ) → holds (update pc i p' j) ≡ owns h.owner j
  same-Owner p p' e k j = ground (arith, inv.owner j)

  free-Owner :
      (p p' : Pc)
      → pc i ≡ p
      → holds p ≡ true
      → holds p' ≡ false
      → (j : ℕ) → holds (update pc i p' j) ≡ false
  free-Owner p p' e k k' j = ground (arith, inv.owner i, inv.owner j)

  acquire-Owner : (t : Task) (o : Option ℕ) → h.owner ≡ o → Owner (acquire i h t o)
  acquire-Owner t none e = λ j. ground (arith, inv.owner j)
  acquire-Owner t (some k) e = tt

  holds-called : (call : Call) → holds (called call) ≡ false
  holds-called call = ground arith

  pub move-Owner : (p : Pc) → pc i ≡ p → Owner (move i call h p)
  unfolding move
  move-Owner idle e = same-Owner idle _ e (holds-called call)
  move-Owner (ended t) e = same-Owner (ended t) _ e (holds-called call)
  move-Owner (lock t) e = acquire-Owner t h.owner refl
  move-Owner (check t) e = same-Owner (check t) _ e (holds-decided t (decide t h.state h.occupied))
  move-Owner (block t) e = free-Owner (block t) (sleep t) e refl refl
  move-Owner (sleep t) e = tt
  move-Owner (woken t) e = acquire-Owner t h.owner refl
  move-Owner (ready (push v)) e = same-Owner (ready (push v)) (stored v) e refl
  move-Owner (ready take) e = same-Owner (ready take) (fetched h.slot) e refl
  move-Owner (ready look) e = same-Owner (ready look) (unlock look) e refl
  move-Owner (stored v) e = same-Owner (stored v) (notify (push v)) e refl
  move-Owner (fetched v) e = same-Owner (fetched v) (notify take) e refl
  move-Owner (notify t) e = same-Owner (notify t) (unlock t) e refl
  move-Owner (unlock t) e = free-Owner (unlock t) idle e refl refl
  move-Owner (unlock_end t) e = free-Owner (unlock_end t) (ended t) e refl refl
  move-Owner (set_state s k) e = same-Owner (set_state s k) (signal_push k) e refl
  move-Owner (signal_push zero) e = same-Owner (signal_push zero) idle e refl
  move-Owner (signal_push (suc k)) e = same-Owner (signal_push (suc k)) (signal_empty k) e refl
  move-Owner (signal_empty k) e = same-Owner (signal_empty k) (signal_push k) e refl
