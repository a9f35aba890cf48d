-- ===== src/Blackjack/Shoe/Deals.antt =====
-- What deal() hands out, whatever rand() returns.
use beast_lounge.Base.{
  ℕ, zero, suc, ◌+◌, ◌-◌, ◌*◌, ◌≤◌, ◌<◌, ◌≡◌, refl, sym, ap, inl, inr, Bool-cases, drop_all, ◌∙◌,
  ◌∷◌, arith, length, get_or, replicate, length-replicate, drop, ◌==◌, count, count-get_or,
  drop-get_or,
}
use beast_lounge.Blackjack.Shoe.{Rand, Shoe, fill, shuffle, shoe, take_card, deal, deals}
use beast_lounge.Blackjack.Shoe.Deck.{is_card, length-fill, fill-replicate, count-fill}
use beast_lounge.Blackjack.Shoe.Swaps.{length-mix, count-mix}

-- A shoe that holds the cards of so many decks, each as often as there are decks.
pub record IsFull (decks : ℕ) (s : Shoe) : Type 0 where
  pub size : length s.cards ≡ decks * 52
  pub counts : (c : ℕ) → count c s.cards ≡ decks * is_card c
  pub within : s.pos ≤ length s.cards

-- Shuffling any cards of that number, whatever they are, fills the shoe.
pub shuffle-IsFull :
    (decks : ℕ) (s : Shoe) (r : Rand)
    → 0 < decks
    → length s.cards ≡ decks * 52
    → IsFull decks (shuffle s r).0 × ((shuffle s r).0.pos ≡ 0)
unfolding shuffle
shuffle-IsFull decks s r h e = (
  record {
    size = length-mix (length s.cards - 1) 0 _ r ∙ length-fill 0 s.cards ∙ e;
    counts = λ c.
        count-mix c (length s.cards - 1) 0 _ r (omega (arith, length-fill 0 s.cards))
        ∙ ap (count c) (fill-replicate 0 s.cards)
        ∙ ap (λ n. count c (fill 0 (replicate n 0))) e
        ∙ count-fill c decks;
    within = omega arith;
  },
  refl,
)

pub shoe-IsFull :
    (decks : ℕ) (r : Rand) → 0 < decks → IsFull decks (shoe decks r).0 × ((shoe decks r).0.pos ≡ 0)
unfolding shoe
shoe-IsFull decks r h =
    shuffle-IsFull decks (record { cards = replicate (decks * 52) 0; pos = 0 }) r h
      (length-replicate (decks * 52) 0)

is_card-count : (decks c : ℕ) → 0 < decks * is_card c → is_card c ≡ 1
is_card-count decks c h = ground arith

take_card-IsFull :
    (decks : ℕ) (s : Shoe) (r : Rand)
    → IsFull decks s
    → s.pos < length s.cards
    → (is_card (take_card (s, r)).0 ≡ 1) × IsFull decks (take_card (s, r)).1
unfolding take_card
take_card-IsFull decks s r v h =
    let c : ℕ = get_or s.cards s.pos 0 in
    (
      is_card-count decks c (omega (arith, count-get_or s.cards s.pos h, v.counts c)),
      record { size = v.size; counts = v.counts; within = h },
    )

-- From a shoe that holds the cards of the decks, one at least, deal() gives one of the 52 cards, and
-- the shoe still holds them.
pub deal-IsFull :
    (decks : ℕ) (s : Shoe) (r : Rand)
    → 0 < decks
    → IsFull decks s
    → (is_card (deal s r).0 ≡ 1) × IsFull decks (deal s r).1
unfolding deal
deal-IsFull decks s r h v = elim (Bool-cases (s.pos == length s.cards)) [
  | inl end ↦
      let f = shuffle-IsFull decks s r h v.size in
      rw end
        (take_card-IsFull decks (shuffle s r).0 (shuffle s r).1 f.0 (omega (arith, f.0.size, f.1)))
  | inr more ↦ rw more (take_card-IsFull decks s r v (ground (arith, v.within)))
]

-- Up to the end of the shoe the cards come in their order.
deals-drop :
    (n : ℕ) (s : Shoe) (r : Rand) → s.pos + n ≡ length s.cards → deals n s r ≡ drop s.pos s.cards
unfolding deals deal take_card
deals-drop zero s r h = sym (drop_all s.pos s.cards (omega arith))
deals-drop (suc n) s r h = elim (Bool-cases (s.pos == length s.cards)) [
  | inl end ↦ absurd (ground arith)
  | inr more ↦ rw more (
      ap (λ l. get_or s.cards s.pos 0 ∷ l) (deals-drop n _ r (omega arith))
      ∙ sym (drop-get_or s.cards s.pos 0 (omega arith)))
]

-- Whatever rand() returns, the first pass through a new shoe of one deck or more, 52 cards for each,
-- deals each card of the deck exactly as often as there are decks, and nothing else.
pub count-deals :
    (decks c : ℕ) (r : Rand)
    → 0 < decks
    → let (s, r') = shoe decks r in count c (deals (decks * 52) s r') ≡ decks * is_card c
count-deals decks c r h =
    let v = shoe-IsFull decks r h in
    let s : Shoe = (shoe decks r).0 in
    ap (count c) (deals-drop (decks * 52) s (shoe decks r).1 (omega (arith, v.0.size, v.1)))
    ∙ ap (λ p. count c (drop p s.cards)) v.1
    ∙ v.0.counts c
