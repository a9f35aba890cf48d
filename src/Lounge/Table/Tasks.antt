-- ===== src/Lounge/Table/Tasks.antt =====
-- The tasks of the table keep the game, and change nothing of the lounge but what users are sent.
use beast_lounge.Base.{ℕ, Bool, true, false, if◌then◌else◌, List, [], ◌∷◌, Option, none, some}
use beast_lounge.Base.Int.{ℤ}
use beast_lounge.Boost.{Boost}
use beast_lounge.Rpc.{RpcCall, text_error}
use beast_lounge.Blackjack.Shoe.{Rand}
use beast_lounge.Blackjack.Seat.{Error, message}
use beast_lounge.Blackjack.Game.{Game, Event, join, leave, surrender, bet, start}
use beast_lounge.Blackjack.Game.Seating.{IsTable}
use beast_lounge.Blackjack.Game.Moves.{join-IsTable}
use beast_lounge.Blackjack.Game.Leaving.{leave-IsTable}
use beast_lounge.Blackjack.Game.Surrender.{surrender_facts}
use beast_lounge.Blackjack.Game.Betting.{bet-IsTable}
use beast_lounge.Blackjack.Game.Runs.{started}
use beast_lounge.Blackjack.Game.Histories.{start-IsTable, IfRuns}
use beast_lounge.Lounge.{
  Channel, Lounge, Task, do_insert, do_erase, do_play, do_watch, do_bet, do_start, do_hit, do_stand,
}
use beast_lounge.Lounge.Broadcast.{
  SameBut, SameBut-refl, SameBut-trans, send-SameBut, broadcast_lem,
}
use beast_lounge.Lounge.Handling.{complete-SameBut, complete_error-SameBut}
use beast_lounge.Lounge.Table.{
  update_message, update, event_action, updates, answer, run_insert, run_erase, run_play, run_watch,
  run_bet, run_start, run_task, is_one,
}

module _ ⦃B : Boost⦄ where
  open B use {Value}

  module _ (chips : Option ℤ → Value) (c : Channel) where
    update-SameBut : (action : _) (g : Game) (s : Lounge) → SameBut s (update chips action c g s)
    unfolding update
    update-SameBut action g s = (broadcast_lem c (update_message chips action c g s) s).1

    updates-SameBut : (es : List Event) (g : Game) (s : Lounge) → SameBut s (updates chips es c g s)
    unfolding updates
    updates-SameBut [] g s = SameBut-refl s
    updates-SameBut (e ∷ es) g s =
        SameBut-trans (update-SameBut (event_action chips e) g s)
          (updates-SameBut es g (update chips (event_action chips e) c g s))

    answer-SameBut :
        (rpc : RpcCall) (ec : Option Error) (before : Lounge → Lounge) (s : Lounge)
        → SameBut s (before s)
        → SameBut s (answer chips rpc ec before s)
    unfolding answer
    answer-SameBut rpc none before s h = SameBut-trans h (complete-SameBut rpc (before s))
    answer-SameBut rpc (some e) before s h = complete_error-SameBut rpc (text_error (message e)) s

    -- A well-formed game, and a lounge in which nothing has changed but what users were sent.
    abbrev pub Ran : Lounge → Option (Game × Lounge × Rand) → Type 0
    Ran s none = Unit {0}
    Ran s (some (g, s', r)) = IsTable g × SameBut s s'

    run_erase-SameBut : (u : ℕ) (g : Game) (s : Lounge) → SameBut s (run_erase chips u c g s).1
    unfolding run_erase
    run_erase-SameBut u g s =
        either (is_one (surrender g u).1) (update-SameBut "surrender" (surrender g u).0 s)
      where
        either : (b : Bool) {s' : Lounge} → SameBut s s' → SameBut s (if b then s' else s)
        either true h = h
        either false h = SameBut-refl s

    start-Ran :
        (rpc : RpcCall) (g : Game) (s : Lounge) (r : Rand)
        → IsTable g
        → Ran s (run_start chips rpc c g s r)
    unfolding run_start
    start-Ran rpc g s r t = go (start g r) (start-IsTable g r t)
      where
        go :
            (o : Option (Game × Option Error × List Event × Rand))
            → IfRuns IsTable (started o)
            → Ran s (elim o [
              | none ↦ none
              | some (g', ec, events, r') ↦
                  some (g', answer chips rpc ec (λ t. t) (updates chips events c g' s), r')
            ])
        go none h = tt
        go (some (g', ec, events, r')) h = (
          h,
          SameBut-trans (updates-SameBut events g' s)
              (answer-SameBut rpc ec (λ t. t) (updates chips events c g' s) (SameBut-refl _)),
        )

    -- Every task that ends without another exception than an rpc_error keeps the table of the game,
    -- and changes nothing of the lounge but what users are sent.
    pub run_task-Ran :
        (task : Task) (g : Game) (s : Lounge) (r : Rand)
        → IsTable g
        → Ran s (run_task chips task c g s r)
    unfolding run_task run_insert run_play run_watch run_bet
    run_task-Ran (do_insert u) g s r t = (t, send-SameBut u (update_message chips "init" c g s) s)
    run_task-Ran (do_erase u) g s r t =
        (unfold run_erase in (surrender_facts g u t).0, run_erase-SameBut u g s)
    run_task-Ran (do_play rpc) g s r t = (
      join-IsTable g rpc.user t,
      answer-SameBut rpc (join g rpc.user).2 (update chips "play" c (join g rpc.user).0) s
          (update-SameBut "play" (join g rpc.user).0 s),
    )
    run_task-Ran (do_watch rpc) g s r t = (
      leave-IsTable g rpc.user t,
      answer-SameBut rpc (leave g rpc.user).2 (update chips "watch" c (leave g rpc.user).0) s
          (update-SameBut "watch" (leave g rpc.user).0 s),
    )
    run_task-Ran (do_bet rpc) g s r t = (
      bet-IsTable g rpc.user t,
      SameBut-trans (updates-SameBut (bet g rpc.user).2 (bet g rpc.user).0 s) (
          answer-SameBut rpc (bet g rpc.user).1 (λ t. t)
            (updates chips (bet g rpc.user).2 c (bet g rpc.user).0 s) (SameBut-refl _)),
    )
    run_task-Ran (do_start rpc) g s r t = start-Ran rpc g s r t
    run_task-Ran (do_hit rpc) g s r t = (t, complete-SameBut rpc s)
    run_task-Ran (do_stand rpc) g s r t = (t, complete-SameBut rpc s)
