-- ===== src/Handover/Slot.antt =====
-- Each step of a thread keeps what the owner of the lock knows about the slot.
use everarch.Prelude.{
  ℕ, zero, suc, ◌≡◌, refl, ◌∙◌, Bool, true, false, Option, none, some, [], ◌∷◌, ◌++◌, arith,
  if◌then◌else◌, ◌==◌, update, subst,
}
use everarch.Handover.{
  RunState, running, abort, finish, Task, push, take, look, Call, Pc, idle, lock, check, block,
  sleep, woken, ready, stored, fetched, notify, unlock, unlock_end, ended, set_state, signal_push,
  signal_empty, Handover, decide, decided, decide_available, decide_occupied, called, acquire,
  Outcome, move,
}
use everarch.Handover.Invariant.{holds, Knows, Inv}

decided-Knows : (t : Task) (h : Handover) → Knows h (decided t (decide t h.state h.occupied))
unfolding decide_available decide_occupied
decided-Knows t h = split t h.state h.occupied refl
  where
    split :
        (t : Task) (s : RunState) (b : Bool) → h.occupied ≡ b → Knows h (decided t (decide t s b))
    split (push v) abort b e = tt
    split (push v) finish b e = tt
    split (push v) running true e = tt
    split (push v) running false e = e
    split take abort b e = tt
    split take finish true e = e
    split take finish false e = tt
    split take running true e = e
    split take running false e = tt
    split look abort b e = tt
    split look finish true e = e
    split look finish false e = tt
    split look running true e = e
    split look running false e = tt

module _ (i : ℕ) (call : Call) (h : Handover) (pc : ℕ → Pc) (inv : Inv h pc) where
  abbrev pub Known : Outcome → Type 0
  Known none = Unit {0}
  Known (some (h', p', s)) = (j : ℕ) → Knows h' (update pc i p' j)

  same-Knows :
      (h' : Handover) (q : Pc)
      → h'.occupied ≡ h.occupied
      → h'.slot ≡ h.slot
      → Knows h q
      → Knows h' q
  same-Knows h' (ready (push v)) eo es k = eo ∙ k
  same-Knows h' (ready take) eo es k = eo ∙ k
  same-Knows h' (ready look) eo es k = eo ∙ k
  same-Knows h' (stored v) eo es (k, l) = (eo ∙ k, es ∙ l)
  same-Knows h' (fetched v) eo es (k, l) = (eo ∙ k, es ∙ l)
  same-Knows h' q eo es k = tt

  without-Knows : (h' : Handover) (q : Pc) → holds q ≡ false → Knows h' q
  without-Knows h' (ready (push v)) e = cc
  without-Knows h' (ready take) e = cc
  without-Knows h' (ready look) e = cc
  without-Knows h' (stored v) e = cc
  without-Knows h' (fetched v) e = cc
  without-Knows h' q e = tt

  -- the slot stays as it is
  reader-Knows :
      (h' : Handover) (p' : Pc)
      → h'.occupied ≡ h.occupied
      → h'.slot ≡ h.slot
      → Knows h' p'
      → (j : ℕ) → Knows h' (update pc i p' j)
  reader-Knows h' p' eo es k j = split (i == j)
    where
      split : (b : Bool) → Knows h' (if b then p' else pc j)
      split true = k
      split false = same-Knows h' (pc j) eo es (inv.knows j)

  -- the one that has the lock changes the slot
  writer-Knows :
      (h' : Handover) (p p' : Pc)
      → pc i ≡ p
      → holds p ≡ true
      → Knows h' p'
      → (j : ℕ) → Knows h' (update pc i p' j)
  writer-Knows h' p p' e l k j = split (i == j) refl
    where
      split : (b : Bool) → (i == j) ≡ b → Knows h' (if b then p' else pc j)
      split true eq = k
      split false eq = without-Knows h' (pc j) (ground (arith, inv.owner i, inv.owner j))

  acquire-Known : (t : Task) (o : Option ℕ) → Known (acquire i h t o)
  acquire-Known t none = reader-Knows (record h { owner = some i }) (check t) refl refl tt
  acquire-Known t (some k) = tt

  Knows-called : (call : Call) → Knows h (called call)
  Knows-called (Call.begin t) = tt
  Knows-called (Call.end_with s k) = tt

  pub own_fact : (p : Pc) → pc i ≡ p → Knows h p
  own_fact p e = subst (Knows h) e (inv.knows i)

  pub move-Known : (p : Pc) → pc i ≡ p → Known (move i call h p)
  unfolding move
  move-Known idle e = reader-Knows h _ refl refl (Knows-called call)
  move-Known (ended t) e = reader-Knows h _ refl refl (Knows-called call)
  move-Known (lock t) e = acquire-Known t h.owner
  move-Known (check t) e = reader-Knows h _ refl refl (decided-Knows t h)
  move-Known (block t) e = reader-Knows (record h { owner = none }) (sleep t) refl refl tt
  move-Known (sleep t) e = tt
  move-Known (woken t) e = acquire-Known t h.owner
  move-Known (ready (push v)) e =
      writer-Knows (record h { slot = v }) (ready (push v)) (stored v) e refl
        (own_fact (ready (push v)) e, refl)
  move-Known (ready take) e =
      reader-Knows h (fetched h.slot) refl refl (own_fact (ready take) e, refl)
  move-Known (ready look) e = reader-Knows h (unlock look) refl refl tt
  move-Known (stored v) e =
      writer-Knows (record h { occupied = true; pushed = h.pushed ++ (v ∷ []) }) (stored v)
        (notify (push v)) e refl tt
  move-Known (fetched v) e =
      writer-Knows (record h { occupied = false; taken = h.taken ++ (v ∷ []) }) (fetched v)
        (notify take) e refl tt
  move-Known (notify t) e = reader-Knows h (unlock t) refl refl tt
  move-Known (unlock t) e = reader-Knows (record h { owner = none }) idle refl refl tt
  move-Known (unlock_end t) e = reader-Knows (record h { owner = none }) (ended t) refl refl tt
  move-Known (set_state s k) e = reader-Knows (record h { state = s }) (signal_push k) refl refl tt
  move-Known (signal_push zero) e = reader-Knows h idle refl refl tt
  move-Known (signal_push (suc k)) e = reader-Knows h (signal_empty k) refl refl tt
  move-Known (signal_empty k) e = reader-Knows h (signal_push k) refl refl tt
