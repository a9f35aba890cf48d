-- ===== src/Blackjack/Game/Histories.antt =====
-- Any history of calls on a new game: the table is kept, and how many cards start() can deal.
use beast_lounge.Base.{
  ℕ, suc, ◌+◌, ◌*◌, ◌<◌, ◌≡◌, ap, inl, inr, List, [], ◌∷◌, Option, none, some, arith, subst, ltb,
  ltb→lt, Bool-cases, sum_by-le, Option-cases,
}
use beast_lounge.Blackjack.Shoe.{Rand}
use beast_lounge.Blackjack.Game.{Game, seat_at, start, new_game}
use beast_lounge.Blackjack.Game.Seating.{IsTable, Arranged-length}
use beast_lounge.Blackjack.Game.Moves.{join-IsTable}
use beast_lounge.Blackjack.Game.Leaving.{leave-IsTable}
use beast_lounge.Blackjack.Game.Surrender.{surrender_facts}
use beast_lounge.Blackjack.Game.Betting.{bet-IsTable}
use beast_lounge.Blackjack.Game.Dealing.{start_throws, start_deals}
use beast_lounge.Blackjack.Game.Runs.{
  Call, joins, leaves, surrenders, bets, starts, step, run, then_run, started, held, Holds,
  new_game-IsTable, new_game-Holds, join-Holds, bet-Holds, surrender-Holds, start-Holds,
}

-- Where an operation may throw, what holds of the game that it leaves otherwise.
abbrev pub IfRuns : (Game → Type 0) → Option (Game × Rand) → Type 0
IfRuns P none = Unit {0}
IfRuns P (some (g, r)) = P g

pub start-IsTable : (g : Game) (r : Rand) → IsTable g → IfRuns IsTable (started (start g r))
start-IsTable g r t = elim (Bool-cases (ltb (held (seat_at g g.turn)) 22)) [
  | inl room ↦ let (e, t') = start_deals g r t (ltb→lt (held (seat_at g g.turn)) 22 room) in rw e t'
  | inr filled ↦ rw (start_throws g r t (ground arith)) tt
]

step-IsTable : (g : Game) (r : Rand) (c : Call) → IsTable g → IfRuns IsTable (step g r c)
unfolding step
step-IsTable g r (joins u) t = join-IsTable g u t
step-IsTable g r (leaves u) t = leave-IsTable g u t
step-IsTable g r (surrenders u) t = (surrender_facts g u t).0
step-IsTable g r (bets u) t = bet-IsTable g u t
step-IsTable g r starts t = start-IsTable g r t

then_run-IsTable :
    (f : Game → Rand → Option (Game × Rand))
    → ((g : Game) (r : Rand) → IsTable g → IfRuns IsTable (f g r))
    → (o : Option (Game × Rand)) → IfRuns IsTable o
    → IfRuns IsTable (then_run f o)
then_run-IsTable f keep none h = tt
then_run-IsTable f keep (some (g, r)) h = keep g r h

run-IsTable : (calls : List Call) (g : Game) (r : Rand) → IsTable g → IfRuns IsTable (run calls g r)
unfolding run
run-IsTable [] g r t = t
run-IsTable (c ∷ calls) g r t =
    then_run-IsTable (run calls) (run-IsTable calls) (step g r c) (step-IsTable g r c t)

-- After any sequence of joins, leaves, surrenders, bets and starts on a new game, whatever rand()
-- returns, and unless start() has thrown: there are six seats, the dealer alone in seat 0, every
-- taken seat has a user and no user has two, and the turn is a seat's.
pub run-new_game-IsTable :
    (decks : ℕ) (r : Rand) (calls : List Call)
    → IfRuns IsTable (run calls (new_game decks r).0 (new_game decks r).1)
run-new_game-IsTable decks r calls = run-IsTable calls _ _ (new_game-IsTable decks r)

-- The calls of start() in a history, and whether nobody leaves in it.
abbrev pub start_calls : List Call → ℕ
start_calls [] = 0
start_calls (starts ∷ calls) = suc (start_calls calls)
start_calls (_ ∷ calls) = start_calls calls

abbrev pub NoLeave : List Call → Type 0
NoLeave [] = Unit {0}
NoLeave (leaves _ ∷ calls) = ⊥
NoLeave (_ ∷ calls) = NoLeave calls

run-Holds :
    (n : ℕ) (calls : List Call) (g g' : Game) (r r' : Rand)
    → NoLeave calls
    → Holds n g
    → run calls g r ≡ some (g', r')
    → Holds (n + start_calls calls) g'
unfolding run step
run-Holds n [] g g' r r' q h e = subst (λ k. Holds k g') (omega arith) (subst (Holds n) (cc) h)
run-Holds n (joins u ∷ calls) g g' r r' q h e = run-Holds n calls _ g' r r' q (join-Holds n g u h) e
run-Holds n (surrenders u ∷ calls) g g' r r' q h e =
    run-Holds n calls _ g' r r' q (surrender-Holds n g u h) e
run-Holds n (bets u ∷ calls) g g' r r' q h e = run-Holds n calls _ g' r r' q (bet-Holds n g u h) e
run-Holds n (leaves u ∷ calls) g g' r r' q h e = absurd q
run-Holds n (starts ∷ calls) g g' r r' q h e = elim (Option-cases (started (start g r))) [
  | inl thrown ↦ cc (thrown)
  | inr ((g₁, r₁), ok) ↦
      subst (λ k. Holds k g') {x = suc n + start_calls calls} (omega arith)
        (run-Holds (suc n) calls g₁ g' r₁ r' q (start-Holds n g g₁ r r₁ h ok) (rw ok at e))
]

-- While nobody leaves, start() throws at the latest when it is called for the 133rd time.
pub run_many_starts :
    (decks : ℕ) (r : Rand) (calls : List Call)
    → NoLeave calls
    → 132 < start_calls calls
    → run calls (new_game decks r).0 (new_game decks r).1 ≡ none
run_many_starts decks r calls q many =
    elim (Option-cases (run calls (new_game decks r).0 (new_game decks r).1)) [
      | inl thrown ↦ thrown
      | inr ((g, r'), e) ↦
          let h = run-Holds 0 calls _ g _ r' q (new_game-Holds decks r) e in
          absurd (
            omega (
              arith,
              sum_by-le held g.seats 22 h.room,
              h.total,
              ap (λ k. k * 22) (Arranged-length g.seats h.table.arranged),
            ))
    ]
