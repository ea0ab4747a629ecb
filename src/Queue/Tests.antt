-- ===== src/Queue/Tests.antt =====
-- A queue of four slots for the theorems on src/queue.c.
use everarch.Prelude.{ℕ, ◌-◌, ◌^◌, refl, [], ◌∷◌, ◌++◌, take, length}
use everarch.Queue.{Queue, create_queue, put_all}
use everarch.Queue.Refine.{Holds, create_queue-Holds}
use everarch.Queue.Take.{put_all_refines}

abbrev ring : Queue ℕ
unfolding create_queue
ring = create_queue 0 2

ring-Holds : Holds 0 2 [] ring
unfolding ring create_queue
ring-Holds = create_queue-Holds 0 2

put_all_refines_example :
    Holds 0 2
      ([] ++ take (2 ^ 2 - 1 - length {A = ℕ} []) (5 ∷ 6 ∷ 7 ∷ 8 ∷ []))
      (put_all ring (5 ∷ 6 ∷ 7 ∷ 8 ∷ []))
unfolding ring create_queue
put_all_refines_example = put_all_refines 0 2 (5 ∷ 6 ∷ 7 ∷ 8 ∷ []) [] ring ring-Holds refl
