-- ===== src/Blackjack/Hand/Draw.antt =====
-- Drawing cards from a shoe: the static_string is never full, and the hand comes to an end.
use beast_lounge.Base.{
  ℕ, zero, suc, ◌+◌, ◌≤◌, ◌<◌, ◌≡◌, refl, inl, inr, true, false, List, [], ◌∷◌, ◌++◌, arith, length,
  length-append, subst, sym, All, lt→ltb, Option, some, Bool-cases,
}
use beast_lounge.Blackjack.Shoe.{Rand, Shoe, deal}
use beast_lounge.Blackjack.Shoe.Deck.{is_card}
use beast_lounge.Blackjack.Shoe.Deals.{IsFull, deal-IsFull}
use beast_lounge.Blackjack.Hand.{
  Hand, empty, value, rank, score, eval, add_card, draw, is_done, draw_all, drawn,
}
use beast_lounge.Blackjack.Hand.Totals.{hard}
use beast_lounge.Blackjack.Hand.Eval.{score-IsBest, Judged, eval-Judged}

-- A hand as deal() leaves it: real cards, and the flags that eval() gives them.
pub record IsDealt (h : Hand) : Type 0 where
  pub real : All (λ c. is_card c ≡ 1) h.cards
  pub judged : h ≡ eval h

value_pos : (c : ℕ) → is_card c ≡ 1 → 0 < value c
unfolding value rank
value_pos zero h = ground arith
value_pos (suc c) h = ground arith

length-le-hard : (cards : List ℕ) → All (λ c. is_card c ≡ 1) cards → length cards ≤ hard cards
unfolding hard
length-le-hard [] real = omega arith
length-le-hard (c ∷ cards) real = omega (arith, value_pos c real.0, length-le-hard cards real.1)

length-le-score : (cards : List ℕ) → All (λ c. is_card c ≡ 1) cards → length cards ≤ score cards
length-le-score cards real = omega (arith, length-le-hard cards real, score-IsBest cards)

-- A hand that is not done holds at most twenty cards.
pub length-not_done : (h : Hand) → IsDealt h → is_done h ≡ false → length h.cards ≤ 20
unfolding is_done eval
length-not_done h v e = ground (arith, v.judged, length-le-score h.cards v.real)

abbrev AreReal : List ℕ → Type 0
AreReal = All (λ c. is_card c ≡ 1)

append-AreReal :
    (cards : List ℕ) (c : ℕ) → AreReal cards → is_card c ≡ 1 → AreReal (cards ++ c ∷ [])
append-AreReal [] c real p = (p, tt)
append-AreReal (x ∷ cards) c real p = (real.0, append-AreReal cards c real.1 p)

empty-IsDealt : IsDealt empty
unfolding eval score
empty-IsDealt = record { real = tt; judged = refl }

add_card_lem :
    (h : Hand) (c : ℕ)
    → length h.cards < 22
    → add_card h c ≡ some (eval (record h { cards = h.cards ++ c ∷ [] }))
unfolding add_card
add_card_lem h c small = rw (lt→ltb _ _ small, add_card)

-- The hand after one more card.
abbrev with_card : Hand → ℕ → Hand
with_card h c = eval (record h { cards = h.cards ++ c ∷ [] })

module _ (decks : ℕ) (some_deck : 0 < decks) where
  -- A hand that is not done takes the next card of the shoe: push_back does not throw.
  pub draw_lem :
      (h : Hand) (s : Shoe) (r : Rand)
      → IsDealt h
      → IsFull decks s
      → is_done h ≡ false
      → ((draw h s r).0 ≡ some (with_card h (deal s r).0))
        × IsDealt (with_card h (deal s r).0)
        × IsFull decks (draw h s r).1
  unfolding draw
  draw_lem h s r v full going =
      let card = deal-IsFull decks s r some_deck full in
      (
        add_card_lem h (deal s r).0 (omega (arith, length-not_done h v going)),
        record {
          real = unfold eval in append-AreReal h.cards (deal s r).0 v.real card.0;
          judged = unfold eval in refl;
        },
        card.1,
      )

  length-with_card : (h : Hand) (c : ℕ) → length (with_card h c).cards ≡ length h.cards + 1
  unfolding eval
  length-with_card h c = omega (arith, length-append h.cards (c ∷ []))

  -- What the loop ends with.
  abbrev Ends : Option Hand → Type 0
  Ends o = (h : Hand) × (o ≡ some h) × (is_done h ≡ true) × IsDealt h × (length h.cards ≤ 21)

  draw_all-Ends :
      (fuel : ℕ) (h : Hand) (s : Shoe) (r : Rand)
      → 21 < fuel + length h.cards
      → length h.cards ≤ 21
      → IsDealt h
      → IsFull decks s
      → Ends (draw_all fuel h s r)
  unfolding draw_all
  draw_all-Ends zero h s r enough most v full = absurd (omega arith)
  draw_all-Ends (suc fuel) h s r enough most v full = elim (Bool-cases (is_done h)) [
    | inl over ↦ rw (over, draw_all) (h, refl, over, v, most)
    | inr going ↦
        let n = length-not_done h v going in
        let d = draw_lem h s r v full going in
        let l = length-with_card h (deal s r).0 in
        rw (going, draw_all)
          (rw (d.0, drawn)
            (draw_all-Ends fuel (with_card h (deal s r).0) (draw h s r).1 (draw h s r).2
              (omega (arith, l)) (omega (arith, l, n)) d.1 d.2))
  ]

  -- From a shoe that holds the cards of the decks, one deck at least, whatever rand() returns: a
  -- hand that draws until it is done throws nothing and needs no more than 22 rounds; it is then
  -- done, its flags are as the rules say, and it holds at most 21 cards, all of them real.
  pub draw_all-done :
      (s : Shoe) (r : Rand)
      → IsFull decks s
      → (h : Hand) × (draw_all 22 empty s r ≡ some h)
        × (is_done h ≡ true)
        × Judged h
        × AreReal h.cards
        × (length h.cards ≤ 21)
  draw_all-done s r full =
      let (h, e, over, v, most) =
        draw_all-Ends 22 empty s r (omega arith) (omega arith) empty-IsDealt full in
      (h, e, over, subst Judged (sym v.judged) (eval-Judged h), v.real, most)
