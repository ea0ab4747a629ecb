-- ===== src/Handover/Invariant.antt =====
-- Who has the lock of the handover, and what is in its slot.
use everarch.Prelude.{ℕ, ◌≡◌, Bool, true, false, Option, none, some, List, [], ◌∷◌, ◌++◌, ◌==◌}
use everarch.Handover.{
  push, Pc, check, block, ready, stored, fetched, notify, unlock, unlock_end, Handover,
}

abbrev pub holds : Pc → Bool
holds (check t) = true
holds (block t) = true
holds (ready t) = true
holds (stored v) = true
holds (fetched v) = true
holds (notify t) = true
holds (unlock t) = true
holds (unlock_end t) = true
holds _ = false

abbrev pub owns : Option ℕ → ℕ → Bool
owns none j = false
owns (some i) j = i == j

-- What a thread that has the lock knows about the slot.
abbrev pub Knows : Handover → Pc → Type 0
Knows h (ready (push v)) = h.occupied ≡ false
Knows h (ready _) = h.occupied ≡ true
Knows h (stored v) = (h.occupied ≡ false) × (h.slot ≡ v)
Knows h (fetched v) = (h.occupied ≡ true) × (h.slot ≡ v)
Knows h _ = Unit {0}

-- the value on its way, if there is one
abbrev pub held : Bool → ℕ → List ℕ
held false v = []
held true v = v ∷ []

pub record Inv (h : Handover) (pc : ℕ → Pc) : Type 0 where
  pub owner : (j : ℕ) → holds (pc j) ≡ owns h.owner j
  pub knows : (j : ℕ) → Knows h (pc j)
  pub history : h.pushed ≡ h.taken ++ held h.occupied h.slot
