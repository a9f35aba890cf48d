-- ===== src/Blackjack/Hand/Totals.antt =====
-- The totals that the rules allow a hand: an ace counts 1 or 11, any other card its value.
use beast_lounge.Base.{
  ℕ, zero, suc, ◌+◌, ◌*◌, ◌≤◌, ◌<◌, ◌≡◌, subst, List, [], ◌∷◌, arith, ◌==◌, Bool-cases, inl, inr,
  if◌then◌else◌, ==_iff, min, ◌%◌,
}
use beast_lounge.Blackjack.Hand.{value, rank}

-- One way to count the hand comes to this total.
pub data Totals : List ℕ → ℕ → Type 0 where
  none : Totals [] 0
  low : {c t : ℕ} {cards : List ℕ} → Totals cards t → Totals (c ∷ cards) (value c + t)
  high : {c t : ℕ} {cards : List ℕ} → value c ≡ 1 → Totals cards t → Totals (c ∷ cards) (11 + t)

-- The total with each ace as 1, and the number of aces.
unfoldable pub hard : List ℕ → ℕ
hard [] = 0
hard (c ∷ cards) = value c + hard cards

unfoldable pub aces : List ℕ → ℕ
aces [] = 0
aces (c ∷ cards) = (if value c == 1 then 1 else 0) + aces cards

pub Totals-hard :
    {cards : List ℕ} {t : ℕ}
    → Totals cards t
    → (k : ℕ) × (k ≤ aces cards) × (t ≡ hard cards + 10 * k)
unfolding hard aces
Totals-hard none = (0, omega arith, omega arith)
Totals-hard (low w) = let (k, le, e) = Totals-hard w in (k, omega (arith, le, e), omega (arith, e))
Totals-hard (high a w) =
    let (k, le, e) = Totals-hard w in (suc k, ground (arith, le, e), omega (arith, le, e))

pub hard-Totals : (cards : List ℕ) (k : ℕ) → k ≤ aces cards → Totals cards (hard cards + 10 * k)
unfolding hard aces
hard-Totals [] k h = subst (Totals []) {x = 0} (omega arith) none
hard-Totals (c ∷ cards) zero h =
    subst (Totals (c ∷ cards)) {x = value c + (hard cards + 10 * 0)} (omega arith)
      (low (hard-Totals cards 0 (omega arith)))
hard-Totals (c ∷ cards) (suc k) h = elim (Bool-cases (value c == 1)) [
  | inl a ↦
      subst (Totals (c ∷ cards)) {x = 11 + (hard cards + 10 * k)} (omega (arith, (==_iff _ _).0 a))
        (high ((==_iff _ _).0 a) (hard-Totals cards k (ground arith)))
  | inr p ↦
      subst (Totals (c ∷ cards)) {x = value c + (hard cards + 10 * suc k)} (omega arith)
        (low (hard-Totals cards (suc k) (ground arith)))
]

add_suc : (m n : ℕ) → m + suc n ≡ suc (m + n)
add_suc m n = omega arith

mod_suit : (suit r : ℕ) → r < 13 → (13 * suit + r) % 13 ≡ r
mod_suit suit r h = omega arith

-- The value of a card by its suit and its rank: 13 cards to the suit, the ace first.
pub value_lem : (suit r : ℕ) → r < 13 → value (13 * suit + suc r) ≡ min 10 (suc r)
unfolding value rank
value_lem suit r h = rw (add_suc (13 * suit) r, mod_suit suit r h) (ground arith)
