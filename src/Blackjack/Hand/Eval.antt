-- ===== src/Blackjack/Hand/Eval.antt =====
-- eval() finds the best way to count the hand.
use beast_lounge.Base.{
  ℕ, zero, suc, ◌+◌, ◌-◌, ◌*◌, ◌≤◌, ◌<◌, ◌≡◌, refl, ◌⊎◌, ◌↔◌, inl, inr, true, List, [], ◌∷◌, arith,
  length, ltb, ◌==◌, subst, sym, Bool-cases, ==_iff, ltb→lt, lt→ltb,
}
use native.Mathlib.Nat.{zero-add}
use beast_lounge.Blackjack.Hand.{Hand, value, tally, demote, score, eval}
use beast_lounge.Blackjack.Hand.Totals.{Totals, hard, aces, Totals-hard, hard-Totals}

tally_lem :
    (a t : ℕ) (cards : List ℕ)
    → (tally a t cards).0 ≡ a + aces cards
      × ((tally a t cards).1 ≡ t + hard cards + 10 * aces cards)
unfolding tally hard aces
tally_lem a t [] = (omega arith, omega arith)
tally_lem a t (c ∷ cards) = elim (Bool-cases (value c == 1)) [
  | inl e ↦
      let r = tally_lem (suc a) (t + 11) cards in
      rw (e, tally) (omega (arith, r, (==_iff (value c) 1).0 e))
  | inr e ↦ let r = tally_lem a (t + value c) cards in rw (e, tally) (omega (arith, r))
]

-- The loop stops at the first total of at most 21, or when no ace is left to count as 1.
abbrev IsBest : ℕ → ℕ → ℕ → Type 0
IsBest h a t =
    (k : ℕ) × (k ≤ a) × (t ≡ h + 10 * k) × ((t ≤ 21) ⊎ (k ≡ 0)) × ((k ≡ a) ⊎ (21 < t + 10))

weaken : (h a t : ℕ) → IsBest h a t → 21 < h + 10 * suc a → IsBest h (suc a) t
weaken h a t (k, le, e, low, top) over =
    (k, omega (arith, le), e, low, inr (omega (arith, le, e, top)))

minus_ten : (h a : ℕ) → h + 10 * suc a - 10 ≡ h + 10 * a
minus_ten h a = omega arith

demote-IsBest : (h a : ℕ) → IsBest h a (demote a (h + 10 * a))
unfolding demote
demote-IsBest h zero = (0, omega arith, refl, inr refl, inl refl)
demote-IsBest h (suc a) = elim (Bool-cases (ltb 21 (h + 10 * suc a))) [
  | inl over ↦ rw (over, minus_ten h a) (weaken h a _ (demote-IsBest h a) (ltb→lt _ _ over))
  | inr fits ↦ rw fits (suc a, omega arith, refl, inl (ground arith), inl refl)
]

pub score-IsBest : (cards : List ℕ) → IsBest (hard cards) (aces cards) (score cards)
unfolding score
score-IsBest cards =
    let r = tally_lem 0 0 cards in
    rw (r.0, r.1, zero-add, zero-add) (demote-IsBest (hard cards) (aces cards))

-- The total that eval() arrives at is that of some way to count the cards: the greatest of all that are
-- at most 21, if there is one, and else the least of all.
pub score_greatest :
    (cards : List ℕ)
    → Totals cards (score cards)
      × ((t : ℕ) → Totals cards t → t ≤ 21 → (t ≤ score cards) × (score cards ≤ 21))
      × ((t : ℕ) → Totals cards t → 21 < score cards → score cards ≤ t)
score_greatest cards =
    let (k, le, e, low, top) = score-IsBest cards in
    (
      subst (Totals cards) (sym e) (hard-Totals cards k le),
      λ t w small.
          let (j, le', e') = Totals-hard w in omega (arith, le, e, low, top, le', e', small),
      λ t w big. let (j, le', e') = Totals-hard w in omega (arith, le, e, low, top, le', e', big),
    )

-- The flags of a hand say what the rules say of its cards.
pub record Judged (h : Hand) : Type 0 where
  pub busted_iff : (h.busted ≡ true) ↔ ((t : ℕ) → Totals h.cards t → 21 < t)
  pub twenty_one_iff : (h.twenty_one ≡ true) ↔ Totals h.cards 21
  pub blackjack_iff : (h.blackjack ≡ true) ↔ (Totals h.cards 21 × (length h.cards ≡ 2))

twenty_one_of : (cards : List ℕ) → Totals cards 21 → score cards ≡ 21
twenty_one_of cards w = omega (arith, (score_greatest cards).1 21 w (omega arith))

-- After eval() the hand is busted exactly if every way to count its cards is above 21, has
-- twenty-one exactly if some way comes to 21, and is a blackjack exactly if it also has two cards.
pub eval-Judged : (h : Hand) → Judged (eval h)
unfolding eval
eval-Judged h =
    let w = (score_greatest h.cards).0 in
    let small : (t : ℕ) → Totals h.cards t → t ≤ 21 → (t ≤ score h.cards) × (score h.cards ≤ 21) =
      (score_greatest h.cards).1 in
    record {
      busted_iff = (
        λ b t v. elim (Bool-cases (ltb 21 t)) [
          | inl over ↦ ltb→lt _ _ over
          | inr fits ↦ absurd (omega (arith, ltb→lt _ _ b, small t v (ground arith)))
        ],
        λ all. lt→ltb _ _ (all (score h.cards) w),
      );
      twenty_one_iff = (
        λ b. subst (Totals h.cards) ((==_iff _ _).0 b) w,
        λ v. (==_iff _ _).1 (twenty_one_of h.cards v),
      );
      blackjack_iff = (
        λ b. (subst (Totals h.cards) (ground arith) w, ground arith),
        λ v. ground (arith, twenty_one_of h.cards v.0),
      );
    }
