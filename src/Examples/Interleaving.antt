-- ===== src/Examples/Interleaving.antt =====
-- Threads that join and leave a channel at once.
use beast_lounge.Base.{ℕ, ◌≡◌, List, [], ◌∷◌}
use beast_lounge.Lounge.Links.{Linked}
use beast_lounge.Lounge.Threads.{Call, inserts, erases, resting, turns}
use beast_lounge.Lounge.Threads.Phases.{phase, steady}
use beast_lounge.Lounge.Threads.Synced.{Synced, turns-resting}
use beast_lounge.Examples.Json.{test_boost}
use beast_lounge.Examples.Users.{quiet, quiet-Linked}

-- User 4 joins, and user 7 before user 4 has told the channel; then user 4 leaves while user 7 is at it.
abbrev schedule : List (ℕ × Call)
schedule =
    (4, inserts 1)
    ∷ (7, inserts 1)
    ∷ (4, erases 1)
    ∷ (7, inserts 1)
    ∷ (4, erases 1)
    ∷ (4, erases 1)
    ∷ (4, erases 1)
    ∷ (4, erases 1)
    ∷ (4, erases 1)
    ∷ (7, inserts 1)
    ∷ []

turns-resting_example :
    Synced ⦃B = test_boost⦄ (turns ⦃B = test_boost⦄ schedule (resting ⦃B = test_boost⦄ quiet))
    × (((v : ℕ)
          → phase ⦃B = test_boost⦄
              ((turns ⦃B = test_boost⦄ schedule (resting ⦃B = test_boost⦄ quiet)).points v)
            ≡ steady)
        → Linked ⦃B = test_boost⦄
            (turns ⦃B = test_boost⦄ schedule (resting ⦃B = test_boost⦄ quiet)).lounge)
turns-resting_example = turns-resting ⦃B = test_boost⦄ schedule quiet quiet-Linked
