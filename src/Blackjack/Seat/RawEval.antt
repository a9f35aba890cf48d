-- ===== src/Blackjack/Seat/RawEval.antt =====
-- Where the eval() of server/core/blackjack.cpp agrees with the rules, and where it does not.
use beast_lounge.Base.{
  ℕ, zero, suc, ◌+◌, ◌-◌, ◌≤◌, ◌<◌, ◌≡◌, refl, List, [], ◌∷◌, arith, ltb, ◌==◌, true, false,
  if◌then◌else◌, All,
}
use beast_lounge.Blackjack.Hand.{Hand, value, tally, demote, score, eval}
use beast_lounge.Blackjack.Seat.{raw_tally, raw_demote, raw_score, raw_eval}

-- A card of the first suit, from the ace to the ten.
abbrev pub IsPip : ℕ → Type 0
IsPip c = (0 < c) × (c ≤ 10)

value-IsPip : (c : ℕ) → IsPip c → value c ≡ c
unfolding value
value-IsPip zero p = absurd (omega arith)
value-IsPip (suc c) p = ground arith

raw_tally_lem : (a t : ℕ) (cards : List ℕ) → All IsPip cards → raw_tally a t cards ≡ tally a t cards
unfolding raw_tally tally
raw_tally_lem a t [] p = refl
raw_tally_lem a t (c ∷ cards) p =
    rw (value-IsPip c p.0)
      (raw_tally_lem (if c == 1 then suc a else a) (if c == 1 then t + 11 else t + c) cards p.1)

raw_demote_lem : (a t : ℕ) → raw_demote a t ≡ demote a t
unfolding raw_demote demote
raw_demote_lem zero t = refl
raw_demote_lem (suc a) t = rw (raw_demote_lem a (t - 10))

raw_score_lem : (cards : List ℕ) → All IsPip cards → raw_score cards ≡ score cards
unfolding raw_score score
raw_score_lem cards p =
    rw (raw_tally_lem 0 0 cards p) (raw_demote_lem (tally 0 0 cards).0 (tally 0 0 cards).1)

value_most : (c : ℕ) → value c ≤ 10
unfolding value
value_most c = ground arith

-- The eval() of server/core/blackjack.cpp is that of server/blackjack/game.hpp on a hand of cards
-- of the first suit from the ace to the ten.
pub raw_eval_agrees : (h : Hand) → All IsPip h.cards → raw_eval h ≡ eval h
unfolding raw_eval eval
raw_eval_agrees h p = rw (raw_score_lem h.cards p)

raw_score_one : (c : ℕ) → 21 < c → ltb 21 (raw_score (c ∷ [])) ≡ true
unfolding raw_score
raw_score_one c big = ground arith

score_one : (c : ℕ) → ltb 21 (score (c ∷ [])) ≡ false
unfolding score
score_one c = ground (arith, value_most c)

-- A hand of one card with a number above 21, of whatever rank, is busted by the eval() of
-- server/core/blackjack.cpp, and not by that of server/blackjack/game.hpp.
pub raw_eval_busts :
    (h : Hand) (c : ℕ)
    → h.cards ≡ c ∷ []
    → 21 < c
    → ((raw_eval h).busted ≡ true) × ((eval h).busted ≡ false)
unfolding raw_eval eval
raw_eval_busts h c e big = rw e (raw_score_one c big, score_one c)
