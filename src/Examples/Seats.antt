-- ===== src/Examples/Seats.antt =====
-- A table with its users.
use beast_lounge.Base.Int.{pos}
use beast_lounge.Base.{
  true, ◌*◌, ℕ, ◌+◌, ◌≤◌, ◌<◌, ◌≡◌, ◌⊎◌, refl, arith, ◌∷◌, [], List, some, none, length, replicate,
  count_if,
}
use beast_lounge.Blackjack.Shoe.{Rand}
use beast_lounge.Blackjack.Hand.{empty}
use beast_lounge.Blackjack.Seat.{new_seat, sits, already_playing}
use beast_lounge.Blackjack.Game.{Game, seat_at, find, join, leave, bet, new_game}
use beast_lounge.Blackjack.Game.Seating.{IsTable, places}
use beast_lounge.Blackjack.Game.Moves.{Joins, join-Joins, join-IsTable}
use beast_lounge.Blackjack.Game.Leaving.{Leaves, leave-Leaves, leave-IsTable, join-leave}
use beast_lounge.Blackjack.Game.Betting.{stakes, Betted, bet_lem}
use beast_lounge.Blackjack.Game.Dealing.{turn_hands, turn_cards}
use beast_lounge.Blackjack.Game.Runs.{
  joins, leaves, surrenders, bets, starts, run, new_game-IsTable,
}
use beast_lounge.Blackjack.Game.Histories.{IfRuns, run-new_game-IsTable, run_many_starts}

abbrev pub some_rand : Rand
some_rand = record { results = λ n. 7 * n + 3; calls = 0 }

abbrev pub fresh : Game
fresh = (new_game 6 some_rand).0

pub fresh-IsTable : IsTable fresh
fresh-IsTable = new_game-IsTable 6 some_rand

-- The table with user 9 in seat 1.
abbrev joined : Game
joined = (join fresh 9).0

joined-IsTable : IsTable joined
joined-IsTable = join-IsTable fresh 9 fresh-IsTable

run-new_game-IsTable_example : IfRuns IsTable (
    run
      (joins 9 ∷ joins 8 ∷ leaves 9 ∷ surrenders 9 ∷ bets 8 ∷ starts ∷ [])
      (new_game 6 some_rand).0
      (new_game 6 some_rand).1)
run-new_game-IsTable_example =
    run-new_game-IsTable 6 some_rand
      (joins 9 ∷ joins 8 ∷ leaves 9 ∷ surrenders 9 ∷ bets 8 ∷ starts ∷ [])

join_works : (join fresh 9).2 ≡ none
unfolding join find new_game sits
join_works = refl

join-Joins_example : Joins fresh 9 (join fresh 9)
join-Joins_example = join-Joins fresh 9 fresh-IsTable

leave-Leaves_example : Leaves joined 9 (leave joined 9)
leave-Leaves_example = leave-Leaves joined 9 joined-IsTable

leave_works : (leave joined 9).1 ≡ 1
unfolding leave join find new_game sits
leave_works = refl

join-leave_example :
    (places 9 (leave joined 9).0.seats ≡ 1)
    × (join (leave joined 9).0 9 ≡ ((leave joined 9).0, 0, some already_playing))
join-leave_example = join-leave joined 9 joined-IsTable leave_works

abbrev gone : Game
gone = (leave joined 9).0

abbrev other_user : ℕ
other_user = 8

-- User 9 bets after having left, with the chips that leave() sets.
bet_lem_example :
    IsTable (bet gone 9).0
    × Betted gone 9 (bet gone 9)
    × (stakes (seat_at (bet gone 9).0 1) ≡ stakes (seat_at gone 1))
    × ((sits 9 (seat_at gone 1) ≡ true) ⊎ (seat_at (bet gone 9).0 1 ≡ seat_at gone 1))
bet_lem_example = bet_lem gone 9 1 (leave-IsTable joined 9 joined-IsTable)

gone_chips : (seat_at gone 1).chips ≡ some (pos 1000)
unfolding leave join find new_game sits beast_lounge.Blackjack.Seat.clear
gone_chips = refl

no_cards : length (turn_cards (turn_hands fresh)) < 22
unfolding new_game
no_cards = omega arith

-- The table with so many cards in the dealer's hand.
abbrev dealer_holds : List ℕ → Game
dealer_holds cards = record fresh {
  seats =
      record (seat_at fresh 0) { hands = record empty { cards = cards } ∷ [] }
      ∷ replicate 5 new_seat;
}

dealer_holds-IsTable : (cards : List ℕ) → IsTable (dealer_holds cards)
unfolding new_game count_if sits
dealer_holds-IsTable cards = record {
  arranged = (
    record { dealer_state = refl; no_user = refl; dealer_hand = omega arith },
    fresh-IsTable.arranged.1,
    refl,
  );
  turn_within = omega arith;
  once = λ u. fresh-IsTable.once u;
}

filled : 22 ≤ length (turn_cards (turn_hands (dealer_holds (replicate 22 5))))
unfolding new_game
filled = omega arith

run_many_starts_example :
    run (replicate 133 starts) (new_game 6 some_rand).0 (new_game 6 some_rand).1 ≡ none
run_many_starts_example = run_many_starts 6 some_rand (replicate 133 starts) tt (omega arith)
