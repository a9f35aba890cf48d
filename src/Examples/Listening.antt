-- ===== src/Examples/Listening.antt =====
-- Runs of the listener.
use beast_lounge.Base.{◌≡◌, ◌≤◌, ◌⊎◌, true, false, none, some, List, [], ◌∷◌, count}
use beast_lounge.Http.Session.{end_of_stream}
use beast_lounge.Listener.{
  new_listener, do_stop, ListenerEvent, starts, accepts, detects, upgrades, ends, steps,
}
use beast_lounge.Listener.Stops.{do_stop_lem}
use beast_lounge.Examples.Json.{test_boost}

abbrev visits : List (ListenerEvent ⦃B = test_boost⦄)
visits =
    starts
    ∷ accepts none
    ∷ accepts none
    ∷ detects 0 none true
    ∷ detects 1 (some end_of_stream) false
    ∷ upgrades 2
    ∷ accepts none
    ∷ ends 3
    ∷ []

do_stop_lem_example :
    let s = steps ⦃B = test_boost⦄ visits (new_listener ⦃B = test_boost⦄) in
    ((s.alive 4 ≡ true) × (count 4 (do_stop ⦃B = test_boost⦄ s).stops ≡ 1))
    ⊎ ((s.alive 4 ≡ false) × (count 4 (do_stop ⦃B = test_boost⦄ s).stops ≤ 1))
do_stop_lem_example = do_stop_lem ⦃B = test_boost⦄ visits 4
