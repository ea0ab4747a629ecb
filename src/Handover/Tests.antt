-- ===== src/Handover/Tests.antt =====
-- Concrete interleavings for the theorems on the handover.
use everarch.Prelude.{ℕ, ◌≡◌, ◌≢◌, ◌⊎◌, refl, none, some, List, [], ◌∷◌, ◌++◌, arith, update}
use everarch.Handover.{
  abort, finish, push, take, Call, begin, end_with, Pc, idle, sleep, Handover, move, quiet, moves,
  Reach, start, later, init_handover, initial, Outcome, decide_occupied,
}
use everarch.Handover.Invariant.{held}
use everarch.Handover.Safety.{pushed-taken, stop-taken}
use everarch.Handover.Wakeup.{Awake, end_handover_misses}

record Run : Type 0 where
  handover : Handover
  pc : ℕ → Pc
  reach : Reach initial (record { handover = handover; pc = pc })

turned : (r : Run) (i : ℕ) (call : Call) (o : Outcome) → move i call r.handover (r.pc i) ≡ o → Run
turned r i call none e = r
turned r i call (some (h, p, none)) e = record {
  handover = h;
  pc = update r.pc i p;
  reach = later r.reach (moves i call p none e quiet);
}
turned r i call (some (h, p, some c)) e = r

-- a step of thread `i`, if it can go on and signals nothing
turn : Run → ℕ × Call → Run
unfolding turned
turn r (i, call) = turned r i call (move i call r.handover (r.pc i)) refl

unfoldable run : List (ℕ × Call) → Run
unfolding turn init_handover initial move
run [] = record { handover = init_handover; pc = λ i. idle; reach = start }
run (t ∷ ts) = turn (run ts) t

-- thread 0 has put 7 into the slot; the last step stands first
abbrev one_pushed : List (ℕ × Call)
one_pushed =
    (0, begin take) ∷ (0, begin take) ∷ (0, begin take) ∷ (0, begin take) ∷ (0, begin (push 7)) ∷ []

abbrev finished : List (ℕ × Call)
finished = (1, begin take) ∷ (1, end_with finish 1) ∷ []

-- thread 0 is in front of cnd_wait, and thread 1 at the start of evr_end_handover
abbrev about_to_wait : List (ℕ × Call)
about_to_wait = (1, end_with finish 1) ∷ (0, begin take) ∷ (0, begin take) ∷ (0, begin take) ∷ []

pushed-taken_example :
    (run one_pushed).handover.pushed
    ≡ (run one_pushed).handover.taken
      ++ held (run one_pushed).handover.occupied (run one_pushed).handover.slot
pushed-taken_example = pushed-taken (run one_pushed).reach

seven : (run one_pushed).handover.pushed ≡ 7 ∷ []
unfolding run
seven = refl

stop-taken_example :
    ((run finished).handover.state ≡ abort)
    ⊎ (((run finished).handover.state ≡ finish)
        × ((run finished).handover.pushed ≡ (run finished).handover.taken))
unfolding run decide_occupied
stop-taken_example = stop-taken (run finished).reach refl

all-Awake : Awake (run about_to_wait).pc
unfolding run
all-Awake m u e = ground arith

end_handover_misses_example :
    (pc' : ℕ → Pc) × Reach initial (record {
      handover = record (run about_to_wait).handover { state = finish; owner = none };
      pc = pc';
    })
    × (pc' 0 ≡ sleep take)
    × (pc' 1 ≡ idle)
    × ((m : ℕ) → 0 ≢ m → 1 ≢ m → pc' m ≡ (run about_to_wait).pc m)
unfolding run
end_handover_misses_example =
    end_handover_misses (run about_to_wait).handover (run about_to_wait).pc 0 1 1 take finish
      (run about_to_wait).reach refl refl all-Awake
