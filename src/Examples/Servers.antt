-- ===== src/Examples/Servers.antt =====
-- Runs of the server.
use beast_lounge.Base.{ℕ, ◌≡◌, refl, true, false, List, [], arith, ◌∷◌}
use beast_lounge.Server.{
  Server, ServerEvent, inserts, runs, resumes, shuts_down, timer, signal, new_server, on_timer,
  shutdown, history,
}
use beast_lounge.Server.Countdown.{Ticks, on_timer-Ticks, rounds, shutdown_ends}
use beast_lounge.Server.Life.{Life, accepted, history-Life}

abbrev never : ℕ
never = 9223372036854775807

abbrev closing : Server
closing = record (new_server 1000 never) { shutdown_time = 25000; expiry = 5000 }

on_timer-Ticks_example : Ticks 1000 6500 closing (on_timer 1000 never 6500 closing)
on_timer-Ticks_example = on_timer-Ticks 1000 (ground arith) never 6500 closing refl

shutdown_ends_example :
    (rounds 1000 never
      (12 ∷ 700 ∷ 5 ∷ [])
      (shutdown 1000 never 4000 30 (new_server 1000 never))).stopped
    ≡ true
shutdown_ends_example =
    shutdown_ends 1000 (ground arith) never 4000 30 (12 ∷ 700 ∷ 5 ∷ []) (new_server 1000 never) refl
      refl (ground arith)

abbrev one_life : List ServerEvent
one_life =
    inserts 7
    ∷ signal 20 true
    ∷ inserts 3
    ∷ runs
    ∷ inserts 9
    ∷ shuts_down 4000 5
    ∷ timer 9000 false
    ∷ resumes
    ∷ []

history-Life_example :
    Life (accepted one_life) (history 1000 never one_life (new_server 1000 never))
history-Life_example = history-Life 1000 never one_life
