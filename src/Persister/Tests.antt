-- ===== src/Persister/Tests.antt =====
-- Concrete runs of the persister, over a write context that is the list of the appended blobs.
use everarch.Prelude.{
  ℕ, ◌+◌, ◌≤◌, ◌≡◌, inl, inr, refl, true, false, none, some, List, [], ◌∷◌, ◌++◌, length,
  if◌then◌else◌, ◌==◌,
}
use everarch.Errors.{Status, ok, error}
use everarch.Persister.{Persister, Event, queue, wait, work, stop_store, stop_signal, happen_all}
use everarch.Persister.Order.{tasks_of, latest, replay, Truthful}
use everarch.Persister.Stop.{ended-strands}
use everarch.Persister.Tasks.{IsIn, reached, persisted_in_order, wait-result, waiting-accepted}

-- an append that refuses the blob 0
abbrev append_item : ℕ → ℕ → List ℕ → Status × List ℕ
append_item b now bs = if b == 0 then (error, bs) else (ok, bs ++ (b ∷ []))

-- the blob of a task
abbrev blob : ℕ → ℕ
blob t = if t == 7 then 0 else t + 100

abbrev run : List Event → Persister (List ℕ)
run es = reached append_item blob 0 [] (λ t. false) (λ t. none) (λ t. 0) es

-- two tasks are queued while the worker is in the append of the first
abbrev busy : List Event
busy =
    queue 3
    ∷ work 50 ok
    ∷ queue 7
    ∷ work 51 ok
    ∷ work 52 ok
    ∷ wait 3
    ∷ work 53 ok
    ∷ work 54 ok
    ∷ work 55 ok
    ∷ work 56 ok
    ∷ queue 9
    ∷ []

-- the worker comes to rest
abbrev resting : List Event
resting = queue 3 ∷ work 50 ok ∷ work 51 ok ∷ work 52 ok ∷ work 53 ok ∷ work 54 ok ∷ []

-- the persister is stopped with a task in the ring
abbrev stopped : List Event
stopped = queue 3 ∷ stop_store ∷ work 50 ok ∷ stop_signal ∷ []

persisted_in_order_example :
    (rest : List ℕ) × ((run busy).accepted ≡ tasks_of (run busy).persisted ++ rest)
    × (length rest ≤ 33)
    × ((run busy).write_ctx ≡ replay append_item blob [] (λ t. none) (run busy).persisted)
    × Truthful append_item blob [] (λ t. none) (run busy).persisted
persisted_in_order_example =
    persisted_in_order append_item blob 0 [] (λ t. false) (λ t. none) (λ t. 0) busy

busy_lem : (run busy).write_ctx ≡ 103 ∷ []
unfolding reached
busy_lem = refl

wait-result_example :
    IsIn 7 (tasks_of (run busy).persisted)
    × ((res : Status) × ((run busy).result 7 ≡ some res)
        × (latest (λ t. none) (run busy).persisted 7 ≡ some res))
unfolding reached
wait-result_example =
    wait-result append_item blob 0 [] (λ t. false) (λ t. none) (λ t. 0) busy 7 (inr (inl refl)) refl

waiting-accepted_example : (run resting).accepted ≡ tasks_of (run resting).persisted
unfolding reached
waiting-accepted_example =
    waiting-accepted append_item blob 0 [] (λ t. false) (λ t. none) (λ t. 0) resting refl

ended-strands_example :
    (happen_all append_item blob (run stopped) (work 60 ok ∷ wait 3 ∷ [])).done_locked 3 ≡ true
unfolding reached
ended-strands_example =
    ended-strands append_item blob 0 [] (λ t. false) (λ t. none) (λ t. 0) stopped ok 3
      (work 60 ok ∷ wait 3 ∷ []) refl (inl refl) (λ h. h)
