-- ===== src/Tests/Failer.antt =====
-- Two goroutines at one failer.
use peg.Base.{◌≡◌, refl, true, false, ◌||◌, none, some, [], ◌∷◌}
use peg.Suite.Failer.{
  lock, unlock, set_failed, read_failed, fail, failed, first, Syncfailer, locks, unlocks, sets,
  reads, first_acts, second_acts, Steps, start, next,
}
use peg.Suite.Failer.Laws.{
  call_fail, call_failed, AccessesNext, some_fail, new_synced_failer, Steps-no_race,
  Steps-has_failed,
}

-- The first calls `Fail`, the second `Failed`.
abbrev shared : Syncfailer
shared = new_synced_failer (call_fail ∷ []) (call_failed ∷ [])

-- The first has the lock.
abbrev locked : Syncfailer
locked = record {
  has_failed = false;
  holder = some first;
  first_left = set_failed ∷ unlock ∷ [];
  second_left = lock ∷ read_failed ∷ unlock ∷ [];
}

locked_steps : Steps shared locked
unfolding fail failed
locked_steps = next start (first_acts locks)

Steps-no_race_example : ¬ (AccessesNext locked.first_left × AccessesNext locked.second_left)
Steps-no_race_example = Steps-no_race (call_fail ∷ []) (call_failed ∷ []) locked locked_steps

abbrev through : Syncfailer
through = record { has_failed = true; holder = none; first_left = []; second_left = [] }

-- The first gets the lock before the second.
through_steps : Steps shared through
unfolding fail failed
through_steps =
    next
      (next
        (next (next (next (next start (first_acts locks)) (first_acts sets)) (first_acts unlocks))
          (second_acts locks))
        (second_acts reads))
      (second_acts unlocks)

Steps-has_failed_example : true ≡ (some_fail (call_fail ∷ []) || some_fail (call_failed ∷ []))
Steps-has_failed_example =
    Steps-has_failed (call_fail ∷ []) (call_failed ∷ []) through through_steps refl refl
