-- ===== src/Blackjack/Hand.antt =====
-- The struct `hand` of server/blackjack/game.hpp. A card is the number of its char; `cards` is the
-- sequence that the static_string<22> holds, whose push_back throws std::length_error when it is
-- full: `none`. Only the values 0 to 52 occur, so a char never is negative.
pub mod Totals
pub mod Eval
pub mod Draw
use beast_lounge.Base.{
  ℕ, zero, suc, ◌+◌, ◌-◌, ◌%◌, Bool, true, false, ◌&&◌, ◌||◌, List, [], ◌∷◌, ◌++◌, Option, none,
  some, length, ltb, ◌==◌, if◌then◌else◌,
}
use beast_lounge.Base.Int.{ℤ, pos}
use beast_lounge.Blackjack.Shoe.{Rand, Shoe, deal}

pub record Hand : Type 0 where
  pub cards : List ℕ
  pub wager : ℤ
  pub busted : Bool
  pub twenty_one : Bool
  pub blackjack : Bool

-- The capacity of the static_string.
abbrev pub max_cards : ℕ
max_cards = 22

abbrev pub empty : Hand
empty = record { cards = []; wager = pos 0; busted = false; twenty_one = false; blackjack = false }

-- clear()
abbrev pub clear : Hand → Hand
clear h = record h {
  cards = [];
  wager = pos 0;
  busted = false;
  twenty_one = false;
  blackjack = false;
}

-- 1 + ((c - 1) % 13), where the hole card 0 has -1 % 13, which is -1.
unfoldable pub rank : ℕ → ℕ
rank zero = 0
rank (suc c) = 1 + c % 13

-- value(c)
unfoldable pub value : ℕ → ℕ
unfolding rank
value c = let v = rank c in if ltb 10 v then 10 else v

-- The loop of eval() over the cards: the aces seen, and the total with each ace as 11.
unfoldable pub tally : ℕ → ℕ → List ℕ → ℕ × ℕ
tally aces total [] = (aces, total)
tally aces total (c ∷ cards) =
    tally (if value c == 1 then suc aces else aces)
      (if value c == 1 then total + 11 else total + value c) cards

-- while(total > 21 && aces--) total -= 10;
unfoldable pub demote : ℕ → ℕ → ℕ
demote zero total = total
demote (suc aces) total = if ltb 21 total then demote aces (total - 10) else total

-- The total that eval() arrives at.
unfoldable pub score : List ℕ → ℕ
unfolding tally demote
score cards = let (aces, total) = tally 0 0 cards in demote aces total

-- eval()
unfoldable pub eval : Hand → Hand
eval h =
    let total = score h.cards in
    record h {
      busted = ltb 21 total;
      twenty_one = total == 21;
      blackjack = (total == 21) && (length h.cards == 2);
    }

-- cards.push_back(c)
unfoldable pub push_back : List ℕ → ℕ → Option (List ℕ)
push_back cards c = if ltb (length cards) max_cards then some (cards ++ c ∷ []) else none

add_card : Hand → ℕ → Option Hand
unfolding push_back eval
add_card h c = elim (push_back h.cards c) [
  | none ↦ none
  | some cards ↦ some (eval (record h { cards = cards }))
]

-- deal(s): the card is taken from the shoe before push_back may throw.
unfoldable pub draw : Hand → Shoe → Rand → Option Hand × Shoe × Rand
unfolding add_card
draw h s r = let (c, s', r') = deal s r in (add_card h c, s', r')

-- is_done()
pub is_done : Hand → Bool
is_done h = h.busted || h.twenty_one

-- A push_back that threw ends the loop.
abbrev drawn : (Hand → Shoe → Rand → Option Hand) → Option Hand × Shoe × Rand → Option Hand
drawn more (none, s, r) = none
drawn more (some h, s, r) = more h s r

-- while(! h.is_done()) h.deal(s), with fuel; `none` is a throw, or no more fuel.
pub draw_all : ℕ → Hand → Shoe → Rand → Option Hand
draw_all zero h s r = none
draw_all (suc fuel) h s r = elim (is_done h) [
  | true ↦ some h
  | false ↦ drawn (draw_all fuel) (draw h s r)
]
