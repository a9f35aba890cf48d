-- ===== src/Blackjack/Shoe/Deck.antt =====
-- What the first loop of shuffle() leaves: each card as often as there are decks.
use beast_lounge.Base.{
  ℕ, zero, suc, ◌+◌, ◌*◌, ◌%◌, ◌<◌, ◌≡◌, refl, ap, ◌∙◌, List, [], ◌∷◌, ◌++◌, true, ◌&&◌, arith, leb,
  length, replicate, ◌==◌, ==_iff, Bool-cases, inl, inr, if◌then◌else◌, count, count-append,
  every_from, every_from_lem, ltb, replicate-add,
}
use mathlib.Core.Path.{ap₂, ◌≡⟨◌⟩◌, ◌∎}
use beast_lounge.Blackjack.Shoe.{fill}

fill-suc : (i j : ℕ) (cards : List ℕ) → i % 52 ≡ j % 52 → fill i cards ≡ fill j cards
unfolding fill
fill-suc i j [] h = refl
fill-suc i j (x ∷ cards) h = ground (arith, fill-suc (suc i) (suc j) cards (omega arith))

fill-append : (i : ℕ) (xs ys : List ℕ) → fill i (xs ++ ys) ≡ fill i xs ++ fill (i + length xs) ys
unfolding fill
fill-append i [] ys = fill-suc i (i + 0) ys (omega arith)
fill-append i (x ∷ xs) ys = ground (
  arith,
  fill-append (suc i) xs ys,
  fill-suc (suc i + length xs) (i + suc (length xs)) ys (omega arith),
)

pub length-fill : (i : ℕ) (cards : List ℕ) → length (fill i cards) ≡ length cards
unfolding fill
length-fill i [] = refl
length-fill i (x ∷ cards) = ap suc (length-fill (suc i) cards)

-- What stood there before does not matter.
pub fill-replicate : (i : ℕ) (cards : List ℕ) → fill i cards ≡ fill i (replicate (length cards) 0)
unfolding fill
fill-replicate i [] = refl
fill-replicate i (x ∷ cards) = ap (λ l. (1 + i % 52) ∷ l) (fill-replicate (suc i) cards)

-- Whether a number is one of the 52 cards.
abbrev pub is_card : ℕ → ℕ
is_card c = if ltb 0 c && leb c 52 then 1 else 0

count-fill_above : (c i : ℕ) (cards : List ℕ) → 52 < c → count c (fill i cards) ≡ 0
unfolding fill count
count-fill_above c i [] h = refl
count-fill_above c i (x ∷ cards) h = ground (arith, count-fill_above c (suc i) cards h)

deck_table : every_from (λ c. count c (fill 0 (replicate 52 0)) == is_card c) 0 53 ≡ true
unfolding every_from count fill
deck_table = refl

count-deck : (c : ℕ) → count c (fill 0 (replicate 52 0)) ≡ is_card c
count-deck c = elim (Bool-cases (ltb c 53)) [
  | inl low ↦ (==_iff _ _).0 (every_from_lem _ 53 0 c deck_table (omega arith) (ground arith))
  | inr high ↦ ground (arith, count-fill_above c 0 (replicate 52 0))
]

pub count-fill : (c decks : ℕ) → count c (fill 0 (replicate (decks * 52) 0)) ≡ decks * is_card c
count-fill c zero = unfold fill count in omega arith
count-fill c (suc decks) =
    count c (fill 0 (replicate (suc decks * 52) 0))
    ≡⟨ ap (λ k. count c (fill 0 (replicate k 0))) {y = 52 + decks * 52} (omega arith) ⟩
      count c (fill 0 (replicate (52 + decks * 52) 0))
    ≡⟨ ap (λ l. count c (fill 0 l)) (replicate-add 52 (decks * 52) 0) ⟩
      count c (fill 0 (replicate 52 0 ++ replicate (decks * 52) 0))
    ≡⟨ ap (count c) (fill-append 0 (replicate 52 0) (replicate (decks * 52) 0)) ⟩
      count c (fill 0 (replicate 52 0) ++ fill (0 + 52) (replicate (decks * 52) 0))
    ≡⟨ count-append c (fill 0 (replicate 52 0)) _ ⟩
      count c (fill 0 (replicate 52 0)) + count c (fill 52 (replicate (decks * 52) 0))
    ≡⟨ ap₂ ◌+◌ (count-deck c) (ap (count c) (fill-suc 52 0 _ refl) ∙ count-fill c decks) ⟩
      is_card c + decks * is_card c
    ≡⟨ grind arith ⟩ suc decks * is_card c ∎
