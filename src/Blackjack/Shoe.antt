-- ===== src/Blackjack/Shoe.antt =====
-- The class `shoe`, of server/blackjack/game.hpp and of server/core/blackjack.cpp (the two differ
-- only in the container of the cards). `cards_` is a list, `pos_` an index into it (its length
-- stands for end()), and rand() a stream of results with the number of calls made so far.
pub mod Deck
pub mod Swaps
pub mod Deals
use beast_lounge.Base.{
  ℕ, zero, suc, ◌+◌, ◌-◌, ◌*◌, ◌%◌, List, [], ◌∷◌, length, get_or, set, replicate, ◌==◌,
  if◌then◌else◌,
}

-- The results of rand(), and the number of calls made.
pub record Rand : Type 0 where
  pub results : ℕ → ℕ
  pub calls : ℕ

abbrev pub rand : Rand → ℕ
rand r = r.results r.calls

abbrev pub called : Rand → Rand
called r = record r { calls = suc r.calls }

pub record Shoe : Type 0 where
  pub cards : List ℕ
  pub pos : ℕ

-- The first loop of shuffle(), from position i: cards_[i] = 1 + (i % 52).
pub fill : ℕ → List ℕ → List ℕ
fill i [] = []
fill i (_ ∷ cards) = (1 + i % 52) ∷ fill (suc i) cards

-- std::swap(cards_[i], cards_[j])
unfoldable pub swap : List ℕ → ℕ → ℕ → List ℕ
swap cards i j = set (set cards i (get_or cards j 0)) j (get_or cards i 0)

-- The second loop of shuffle(), with the given number of rounds to go.
pub mix : ℕ → ℕ → List ℕ → Rand → List ℕ × Rand
mix zero i cards r = (cards, r)
mix (suc rounds) i cards r =
    mix rounds (suc i) (swap cards i (i + rand r % (length cards - i))) (called r)

-- shuffle(): the fresh cards, mixed, and the position at the beginning. There is at least one card, since
-- the game asserts that it has a deck; of no cards the source computes size() - 1 and rand() % 0.
pub shuffle : Shoe → Rand → Shoe × Rand
shuffle s r =
    let (cards, r') = mix (length s.cards - 1) 0 (fill 0 s.cards) r in
    (record { cards = cards; pos = 0 }, r')

-- shoe(int decks)
unfoldable pub shoe : ℕ → Rand → Shoe × Rand
unfolding shuffle
shoe decks r = shuffle (record { cards = replicate (decks * 52) 0; pos = 0 }) r

-- *pos_++
take_card : Shoe × Rand → ℕ × Shoe × Rand
take_card (s, r) = (get_or s.cards s.pos 0, record s { pos = suc s.pos }, r)

-- deal()
pub deal : Shoe → Rand → ℕ × Shoe × Rand
unfolding take_card
deal s r = take_card (if s.pos == length s.cards then shuffle s r else (s, r))

-- The results of n calls of deal(), in order.
pub deals : ℕ → Shoe → Rand → List ℕ
deals zero s r = []
deals (suc n) s r = let (c, s', r') = deal s r in c ∷ deals n s' r'
