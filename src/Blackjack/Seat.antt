-- ===== src/Blackjack/Seat.antt =====
-- The enum `error` and the structs `hand` and `seat` of server/core/blackjack.cpp. The struct
-- `hand` is that of server/blackjack/game.hpp but for eval(), which counts the chars of the cards
-- and not their values, and deal(), which does not call it.
pub mod RawEval
use beast_lounge.Base.{
  ℕ, zero, suc, ◌+◌, ◌-◌, Bool, true, false, ◌&&◌, ◌||◌, not, List, [], ◌∷◌, Option, none, some,
  length, ltb, ◌==◌, if◌then◌else◌,
}
use Prim.Native.String.{String}
use beast_lounge.Base.Int.{ℤ, pos}
use beast_lounge.Blackjack.Shoe.{Rand, Shoe, deal}
use beast_lounge.Blackjack.Hand
use beast_lounge.Blackjack.Hand.{Hand, empty, push_back}

pub data Error : Type 0 where
  not_playing already_playing already_leaving no_open_seat no_more_bets : Error

-- The underlying value, from 1.
abbrev pub code : Error → ℕ
code not_playing = 1
code already_playing = 2
code already_leaving = 3
code no_open_seat = 4
code no_more_bets = 5

-- error_codes::message, of an error
abbrev pub message : Error → String
message not_playing = "Not playing"
message already_playing = "Already playing"
message already_leaving = "Already playing"
message no_open_seat = "No open seat"
message no_more_bets = "No more bets"

-- The loop of eval() over the chars.
raw_tally : ℕ → ℕ → List ℕ → ℕ × ℕ
raw_tally aces total [] = (aces, total)
raw_tally aces total (c ∷ cards) =
    raw_tally (if c == 1 then suc aces else aces) (if c == 1 then total + 11 else total + c) cards

-- while(total > 21 && aces--) total -= 10;
raw_demote : ℕ → ℕ → ℕ
raw_demote zero total = total
raw_demote (suc aces) total = if ltb 21 total then raw_demote aces (total - 10) else total

raw_score : List ℕ → ℕ
unfolding raw_tally raw_demote
raw_score cards = let (aces, total) = raw_tally 0 0 cards in raw_demote aces total

-- hand::eval()
pub raw_eval : Hand → Hand
unfolding raw_score
raw_eval h =
    let total = raw_score h.cards in
    record h {
      busted = ltb 21 total;
      twenty_one = total == 21;
      blackjack = (total == 21) && (length h.cards == 2);
    }

-- hand::deal(s), with the shoe and rand() as it leaves them; `none` is a throw of push_back.
unfoldable pub deal_hand : Hand → Shoe → Rand → Option Hand × Shoe × Rand
deal_hand h s r =
    let (c, s', r') = deal s r in
    (
      elim (push_back h.cards c) [ none ↦ none | some cards ↦ some (record h { cards = cards }) ],
      s',
      r',
    )

-- is_finished()
abbrev pub is_finished : Hand → Bool
is_finished h = h.busted || h.twenty_one

-- seat::state_t; `opened` is `open`.
pub data State : Type 0 where
  dealer waiting playing leaving opened : State

-- `user` is the address of the user, `none` the null pointer. `chips` is `none` until it is
-- assigned: seat() leaves it uninitialised.
pub record Seat : Type 0 where
  pub user : Option ℕ
  pub state : State
  pub hands : List Hand
  pub chips : Option ℤ
  pub wager : ℤ

-- seat()
abbrev pub new_seat : Seat
new_seat = record { user = none; state = opened; hands = empty ∷ []; chips = none; wager = pos 0 }

-- hands[0].clear()
clear_first : List Hand → List Hand
clear_first [] = []
clear_first (h ∷ hands) = Hand.clear h ∷ hands

-- clear()
unfoldable pub clear : Seat → Seat
unfolding clear_first
clear s = record s { hands = clear_first s.hands; wager = pos 0; chips = some (pos 1000) }

abbrev pub is_open : State → Bool
is_open opened = true
is_open _ = false

abbrev pub is_user : ℕ → Option ℕ → Bool
is_user u none = false
is_user u (some v) = v == u

-- The test of find(): s.state != seat::open && s.u == &u
unfoldable pub sits : ℕ → Seat → Bool
sits u s = not (is_open s.state) && is_user u s.user
