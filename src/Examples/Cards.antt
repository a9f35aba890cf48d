-- ===== src/Examples/Cards.antt =====
-- Cards, shoes and hands.
use beast_lounge.Base.{
  ◌<◌, ℕ, ◌+◌, ◌*◌, ◌≤◌, ◌≡◌, refl, arith, ◌∷◌, [], List, true, false, some, length, count, All,
}
use beast_lounge.Blackjack.Shoe.{Rand, shoe, deals}
use beast_lounge.Blackjack.Shoe.Deck.{is_card}
use beast_lounge.Blackjack.Shoe.Deals.{shoe-IsFull, count-deals}
use beast_lounge.Blackjack.Hand.{Hand, empty, score, eval, draw_all, is_done}
use beast_lounge.Blackjack.Hand.Totals.{Totals}
use beast_lounge.Blackjack.Hand.Eval.{Judged, eval-Judged, score_greatest}
use beast_lounge.Blackjack.Hand.Draw.{draw_all-done}
use beast_lounge.Blackjack.Seat.{raw_eval}
use beast_lounge.Blackjack.Seat.RawEval.{raw_eval_busts}

abbrev pub some_rand : Rand
some_rand = record { results = λ n. 7 * n + 3; calls = 0 }

count-deals_example : let (s, r) = shoe 1 some_rand in count 5 (deals (1 * 52) s r) ≡ 1 * is_card 5
count-deals_example = count-deals 1 5 some_rand (omega arith)

draw_all-done_example :
    (h : Hand) × (draw_all 22 empty (shoe 6 some_rand).0 some_rand ≡ some h)
    × (is_done h ≡ true)
    × Judged h
    × All (λ c. is_card c ≡ 1) h.cards
    × (length h.cards ≤ 21)
draw_all-done_example =
    draw_all-done 6 (omega arith) (shoe 6 some_rand).0 some_rand
      (shoe-IsFull 6 some_rand (omega arith)).0

-- An ace, a five and an ace.
abbrev two_aces : List ℕ
two_aces = 1 ∷ 5 ∷ 14 ∷ []

score_greatest_example :
    Totals two_aces (score two_aces)
    × ((t : ℕ) → Totals two_aces t → t ≤ 21 → (t ≤ score two_aces) × (score two_aces ≤ 21))
    × ((t : ℕ) → Totals two_aces t → 21 < score two_aces → score two_aces ≤ t)
score_greatest_example = score_greatest two_aces

eval-Judged_example : Judged (eval (record empty { cards = two_aces }))
eval-Judged_example = eval-Judged (record empty { cards = two_aces })

abbrev queen : Hand
queen = record empty { cards = 25 ∷ [] }

raw_eval_busts_example : ((raw_eval queen).busted ≡ true) × ((eval queen).busted ≡ false)
raw_eval_busts_example = raw_eval_busts queen 25 refl (omega arith)
