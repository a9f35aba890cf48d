-- ===== src/Lounge/Render.antt =====
-- The to_json functions of the structs hand and seat and the class game of
-- server/core/blackjack.cpp. The name of a user is looked up by the address.
use Prim.Native.String.{String}
use beast_lounge.Base.{ℕ, List, [], ◌∷◌, ◌++◌, map, Option, none, some}
use beast_lounge.Base.Int.{ℤ, pos}
use beast_lounge.Boost.{Boost}
use beast_lounge.Blackjack.Hand.{Hand}
use beast_lounge.Blackjack.Seat.{State, dealer, waiting, playing, leaving, opened, Seat}
use beast_lounge.Blackjack.Game.{Phase, wait, play, Game}

module _ ⦃B : Boost⦄ where
  open B use {Value, null, string, integer, array, object}

  -- hand::to_json
  abbrev pub hand_json : Hand → Value
  hand_json h = array (map (λ c. integer (pos c)) h.cards)

  -- The members "user" and "chips"; of uninitialised chips nothing is known.
  abbrev pub player_members : (ℕ → String) → (Option ℤ → Value) → Seat → List (String × Value)
  player_members name chips s =
      ("user", elim s.user [ none ↦ null | some u ↦ string (name u) ])
      ∷ ("chips", chips s.chips)
      ∷ []

  -- The switch of seat::to_json
  abbrev pub state_members :
      (ℕ → String) → (Option ℤ → Value) → State → Seat → List (String × Value)
  state_members name chips dealer s = ("state", string "dealer") ∷ []
  state_members name chips waiting s = ("state", string "waiting") ∷ player_members name chips s
  state_members name chips playing s =
      ("state", string "playing") ∷ player_members name chips s ++ ("wager", integer s.wager) ∷ []
  state_members name chips leaving s =
      ("state", string "leaving") ∷ player_members name chips s ++ ("wager", integer s.wager) ∷ []
  state_members name chips opened s = ("state", string "open") ∷ []

  -- seat::to_json
  abbrev pub seat_json : (ℕ → String) → (Option ℤ → Value) → Seat → Value
  seat_json name chips s =
      object (("hands", array (map hand_json s.hands)) ∷ state_members name chips s.state s)

  abbrev pub phase_message : Phase → String
  phase_message wait = "Waiting for players"
  phase_message play = "Playing"

  -- game::to_json
  abbrev pub game_json : (ℕ → String) → (Option ℤ → Value) → Game → Value
  game_json name chips g = object (
      ("message", string (phase_message g.phase))
      ∷ ("seats", array (map (seat_json name chips) g.seats))
      ∷ [])
