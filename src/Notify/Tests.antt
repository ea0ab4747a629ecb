-- ===== src/Notify/Tests.antt =====
-- Concrete observers for the theorems on the notifications.
use everarch.Prelude.{ℕ, Bool, none, some, [], ◌∷◌, ◌==◌}
use everarch.Queue.{create_queue}
use everarch.Notify.{Notify}

-- one observer, of the messages 5 only, and a slot that is free
abbrev observers : Notify ℕ ℕ
observers = some (record { address = 70; messages = create_queue 0 2; ctx = 5 }) ∷ none ∷ []

abbrev wants : ℕ → ℕ → Bool
wants ctx entry = ctx == entry
