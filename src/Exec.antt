-- ===== src/Exec.antt =====
-- Actions on a state that may give up, as the C functions do that go to their end with an error: what
-- was done to the state before stays done.
use everarch.Prelude.{Option, none, some}

abbrev pub Exec : Type 0 → Type 0 → Type 0
Exec S A = S → Option A × S

module _ {S : Type 0} where
  abbrev pub bind_next : {A B : Type 0} → (A → Exec S B) → Option A × S → Option B × S
  bind_next f (none, s) = (none, s)
  bind_next f (some a, s) = f a s

  infixl 5 ◌>>=◌ ◌>>◌
  abbrev pub ◌>>=◌ : {A B : Type 0} → Exec S A → (A → Exec S B) → Exec S B
  ◌>>=◌ m f s = bind_next f (m s)

  abbrev pub ◌>>◌ : {A B : Type 0} → Exec S A → Exec S B → Exec S B
  m >> k = m >>= λ _. k

  abbrev pub give_up : {A : Type 0} → Exec S A
  give_up s = (none, s)
