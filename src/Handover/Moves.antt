-- ===== src/Handover/Moves.antt =====
-- What every step of the threads keeps: who has the lock, and what is in the slot.
use everarch.Prelude.{
  ℕ, zero, suc, ◌≡◌, refl, sym, ap, ◌∙◌, true, false, Option, none, some, [], ◌∷◌, ◌++◌, update,
  append-nil, subst,
}
use everarch.Handover.{
  Task, push, take, look, Call, Pc, lock, sleep, woken, ready, stored, fetched, signal_push,
  Condition, Handover, acquire, Outcome, move,
}
use everarch.Handover.Invariant.{held, Inv}
use everarch.Handover.Owner.{Owner, move-Owner}
use everarch.Handover.Slot.{Known, move-Known, own_fact}

module _ (i : ℕ) (call : Call) (h : Handover) (pc : ℕ → Pc) (inv : Inv h pc) where
  abbrev Told : Outcome → Type 0
  Told none = Unit {0}
  Told (some (h', p', s)) = h'.pushed ≡ h'.taken ++ held h'.occupied h'.slot

  acquire-Told : (t : Task) (o : Option ℕ) → Told (acquire i h t o)
  acquire-Told t none = inv.history
  acquire-Told t (some k) = tt

  empty_slot : h.occupied ≡ false → h.pushed ≡ h.taken
  empty_slot o = inv.history ∙ ap (λ b. h.taken ++ held b h.slot) o ∙ append-nil h.taken

  full_slot : (v : ℕ) → h.occupied ≡ true → h.slot ≡ v → h.pushed ≡ h.taken ++ (v ∷ [])
  full_slot v o s =
      inv.history ∙ ap (λ b. h.taken ++ held b h.slot) o ∙ ap (λ x. h.taken ++ (x ∷ [])) s

  move-Told : (p : Pc) → pc i ≡ p → Told (move i call h p)
  unfolding move
  move-Told (lock t) e = acquire-Told t h.owner
  move-Told (sleep t) e = tt
  move-Told (woken t) e = acquire-Told t h.owner
  move-Told (ready (push v)) e =
      let o = own_fact i call h pc inv (ready (push v)) e in
      empty_slot o ∙ sym (ap (λ b. h.taken ++ held b v) o ∙ append-nil h.taken)
  move-Told (ready take) e = inv.history
  move-Told (ready look) e = inv.history
  move-Told (stored v) e =
      let (o, s) = own_fact i call h pc inv (stored v) e in
      ap (λ xs. xs ++ (v ∷ [])) (empty_slot o) ∙ sym (ap (λ x. h.taken ++ (x ∷ [])) s)
  move-Told (fetched v) e =
      let (o, s) = own_fact i call h pc inv (fetched v) e in
      full_slot v o s ∙ sym (append-nil (h.taken ++ (v ∷ [])))
  move-Told (signal_push zero) e = inv.history
  move-Told (signal_push (suc k)) e = inv.history
  move-Told p e = inv.history

  abbrev Kept : Outcome → Type 0
  Kept none = Unit {0}
  Kept (some (h', p', s)) = Inv h' (update pc i p')

  kept : (o : Outcome) → Owner i call h pc inv o → Known i call h pc inv o → Told o → Kept o
  kept none a b c = tt
  kept (some (h', p', s)) a b c = record { owner = a; knows = b; history = c }

  pub move_keeps :
      (h' : Handover) (p' : Pc) (s : Option Condition)
      → move i call h (pc i) ≡ some (h', p', s)
      → Inv h' (update pc i p')
  move_keeps h' p' s e = subst Kept e (
      kept (move i call h (pc i)) (move-Owner i call h pc inv (pc i) refl)
        (move-Known i call h pc inv (pc i) refl) (move-Told (pc i) refl))
