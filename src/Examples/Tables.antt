-- ===== src/Examples/Tables.antt =====
-- The tasks of the table, and the list of channels.
use beast_lounge.Base.{[], ◌∷◌}
use beast_lounge.Rpc.{new_call}
use beast_lounge.Lounge.{Channel, Lounge, table, do_play}
use beast_lounge.Lounge.Table.{run_task}
use beast_lounge.Lounge.Table.Tasks.{Ran, run_task-Ran}
use beast_lounge.Examples.Json.{test_boost, nothing}
use beast_lounge.Examples.Seats.{fresh, fresh-IsTable, some_rand}
use beast_lounge.Examples.Users.{quiet}

abbrev blackjack : Channel ⦃B = test_boost⦄
blackjack = record { class = table; uid = 3; cid = 3; name = "Blackjack"; users = 4 ∷ [] }

run_task-Ran_example :
    Ran ⦃B = test_boost⦄
      (λ n. nothing)
      blackjack
      quiet
      (run_task ⦃B = test_boost⦄
        (λ n. nothing)
        (do_play (new_call ⦃B = test_boost⦄ 4))
        blackjack
        fresh
        quiet
        some_rand)
run_task-Ran_example =
    run_task-Ran ⦃B = test_boost⦄ (λ n. nothing) blackjack (do_play (new_call ⦃B = test_boost⦄ 4))
      fresh quiet some_rand fresh-IsTable

abbrev general : Channel ⦃B = test_boost⦄
general = record { class = table; uid = 1; cid = 1; name = "General"; users = [] }
