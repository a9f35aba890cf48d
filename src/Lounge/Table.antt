-- ===== src/Lounge/Table.antt =====
-- The tasks of the class `table` of server/core/blackjack.cpp, which run one after the other on its
-- strand. Each takes the channel of the table as it is at the time, the game and the lounge.
pub mod Tasks
use Prim.Native.String.{String}
use beast_lounge.Base.{ℕ, Bool, false, ◌==◌, if◌then◌else◌, List, [], ◌∷◌, Option, none, some}
use beast_lounge.Base.Int.{ℤ, pos, negsuc}
use beast_lounge.Boost.{Boost}
use beast_lounge.Rpc.{RpcCall, text_error}
use beast_lounge.Blackjack.Shoe.{Rand}
use beast_lounge.Blackjack.Seat.{Error, message}
use beast_lounge.Blackjack.Game.{
  Game, Event, bet_placed, card_dealt, join, leave, surrender, bet, start,
}
use beast_lounge.Lounge.{
  Channel, Lounge, Task, do_insert, do_erase, do_play, do_watch, do_bet, do_start, do_hit, do_stand,
  send,
}
use beast_lounge.Lounge.Members.{broadcast, complete}
use beast_lounge.Lounge.Dispatch.{complete_error}
use beast_lounge.Lounge.Render.{game_json}

-- result == 1
abbrev pub is_one : ℤ → Bool
is_one (pos n) = n == 1
is_one (negsuc n) = false

module _ ⦃B : Boost⦄ where
  open B use {Value, string, integer, object}

  module _ (chips : Option ℤ → Value) where
    -- The message of update(action), and of do_insert.
    abbrev pub update_message : String → Channel → Game → Lounge → Value
    update_message action c g s = object (
        ("cid", integer (pos c.cid))
        ∷ ("verb", string "update")
        ∷ ("action", string action)
        ∷ ("game", game_json (λ u. (s.users u).name) chips g)
        ∷ [])

    -- update(action)
    unfoldable pub update : String → Channel → Game → Lounge → Lounge
    unfolding broadcast
    update action c g s = broadcast c (update_message action c g s) s

    -- on_game_bet(), on_game_deal_card()
    abbrev pub event_action : Event → String
    event_action bet_placed = "bet"
    event_action card_dealt = "deal"

    unfoldable pub updates : List Event → Channel → Game → Lounge → Lounge
    unfolding update
    updates [] c g s = s
    updates (e ∷ es) c g s = updates es c g (update (event_action e) c g s)

    -- if(ec) rpc.fail(ec.message()); and the catch block behind it
    unfoldable pub answer : RpcCall → Option Error → (Lounge → Lounge) → Lounge → Lounge
    unfolding complete complete_error
    answer rpc none before s = (complete rpc (before s)).1
    answer rpc (some e) before s = complete_error rpc (text_error (message e)) s

    -- do_insert(sp)
    unfoldable pub run_insert : ℕ → Channel → Game → Lounge → Game × Lounge
    unfolding send
    run_insert u c g s = (g, send u (update_message "init" c g s) s)

    -- do_erase(u)
    unfoldable pub run_erase : ℕ → Channel → Game → Lounge → Game × Lounge
    unfolding update
    run_erase u c g s =
        let (g', result) = surrender g u in
        (g', if is_one result then update "surrender" c g' s else s)

    -- do_play(rpc)
    unfoldable pub run_play : RpcCall → Channel → Game → Lounge → Game × Lounge
    unfolding answer update
    run_play rpc c g s =
        let (g', i, ec) = join g rpc.user in (g', answer rpc ec (update "play" c g') s)

    -- do_watch(rpc)
    unfoldable pub run_watch : RpcCall → Channel → Game → Lounge → Game × Lounge
    unfolding answer update
    run_watch rpc c g s =
        let (g', i, ec) = leave g rpc.user in (g', answer rpc ec (update "watch" c g') s)

    -- do_bet(rpc)
    unfoldable pub run_bet : RpcCall → Channel → Game → Lounge → Game × Lounge
    unfolding answer updates
    run_bet rpc c g s =
        let (g', ec, events) = bet g rpc.user in
        (g', answer rpc ec (λ t. t) (updates events c g' s))

    -- do_start(rpc): `none` is an exception that is no rpc_error.
    unfoldable pub run_start :
        RpcCall → Channel → Game → Lounge → Rand → Option (Game × Lounge × Rand)
    unfolding answer updates
    run_start rpc c g s r = elim (start g r) [
      | none ↦ none
      | some (g', ec, events, r') ↦ some (g', answer rpc ec (λ t. t) (updates events c g' s), r')
    ]

    abbrev pub still_running : Rand → Game × Lounge → Option (Game × Lounge × Rand)
    still_running r (g, s) = some (g, s, r)

    -- One task of the strand; do_hit and do_stand only complete the call.
    unfoldable pub run_task : Task → Channel → Game → Lounge → Rand → Option (Game × Lounge × Rand)
    unfolding run_insert run_erase run_play run_watch run_bet run_start complete
    run_task (do_insert u) c g s r = still_running r (run_insert u c g s)
    run_task (do_erase u) c g s r = still_running r (run_erase u c g s)
    run_task (do_play rpc) c g s r = still_running r (run_play rpc c g s)
    run_task (do_watch rpc) c g s r = still_running r (run_watch rpc c g s)
    run_task (do_bet rpc) c g s r = still_running r (run_bet rpc c g s)
    run_task (do_start rpc) c g s r = run_start rpc c g s r
    run_task (do_hit rpc) c g s r = some (g, (complete rpc s).1, r)
    run_task (do_stand rpc) c g s r = some (g, (complete rpc s).1, r)
