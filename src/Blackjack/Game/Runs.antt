-- ===== src/Blackjack/Game/Runs.antt =====
-- Any sequence of calls on a new game.
use beast_lounge.Base.{
  ℕ, zero, suc, ◌≤◌, ◌<◌, ◌≡◌, refl, inl, inr, List, [], ◌∷◌, Option, none, some, length,
  length-append, arith, replicate, ltb, All, All-set, All-get_or, subst, ltb→lt, Bool-cases, sum_by,
  sum_by-set, count_if,
}
use beast_lounge.Blackjack.Shoe.{Rand, deal}
use beast_lounge.Blackjack.Hand.{Hand}
use beast_lounge.Blackjack.Seat.{Error, opened, Seat, new_seat, sits}
use beast_lounge.Blackjack.Game.{
  Game, Event, seat_at, put_seat, join, leave, surrender, bet, stake, start, new_game,
}
use beast_lounge.Blackjack.Game.Seating.{IsPlace, IsTable, Arranged-length}
use beast_lounge.Blackjack.Game.Moves.{seated, full, given, join-Joins, join-IsTable, taken}
use beast_lounge.Blackjack.Game.Surrender.{surrender_facts, surrender-Surrenders, opens, seatless}
use beast_lounge.Blackjack.Game.Betting.{bet-Bets, bet-IsTable, away, closed, staked}
use beast_lounge.Blackjack.Game.Dealing.{
  turn_cards, turn_hands, dealt, start_throws, start_deals, with_card, dealt-IsTable, seat_at-hand,
}

pub data Call : Type 0 where
  joins leaves surrenders bets : ℕ → Call
  starts : Call

-- The public methods, one after the other; `none` once start() has thrown.
abbrev pub started : Option (Game × Option Error × List Event × Rand) → Option (Game × Rand)
started none = none
started (some (g, e, events, r)) = some (g, r)

unfoldable pub step : Game → Rand → Call → Option (Game × Rand)
step g r (joins u) = some ((join g u).0, r)
step g r (leaves u) = some ((leave g u).0, r)
step g r (surrenders u) = some ((surrender g u).0, r)
step g r (bets u) = some ((bet g u).0, r)
step g r starts = started (start g r)

abbrev pub then_run :
    (Game → Rand → Option (Game × Rand)) → Option (Game × Rand) → Option (Game × Rand)
then_run f none = none
then_run f (some (g, r)) = f g r

unfoldable pub run : List Call → Game → Rand → Option (Game × Rand)
run [] g r = some (g, r)
run (c ∷ calls) g r = then_run (run calls) (step g r c)

new_seat-IsPlace : IsPlace new_seat
new_seat-IsPlace = record {
  not_dealer = λ e. cc;
  has_hand = omega arith;
  has_user = λ h. absurd (h refl);
}

new_seats-IsPlace : (n : ℕ) → All IsPlace (replicate n new_seat)
new_seats-IsPlace zero = tt
new_seats-IsPlace (suc n) = (new_seat-IsPlace, new_seats-IsPlace n)

pub new_game-IsTable : (decks : ℕ) (r : Rand) → IsTable (new_game decks r).0
unfolding new_game count_if sits
new_game-IsTable decks r = record {
  arranged = (
    record { dealer_state = refl; no_user = refl; dealer_hand = omega arith },
    new_seats-IsPlace 5,
    refl,
  );
  turn_within = omega arith;
  once = λ u. omega arith;
}

-- The cards of a seat's first hand.
abbrev pub held : Seat → ℕ
held s = length (turn_cards s.hands)

-- A table with so many cards in the first hands, none of which exceeds its capacity.
pub record Holds (n : ℕ) (g : Game) : Type 0 where
  pub table : IsTable g
  pub total : sum_by held g.seats ≡ n
  pub room : All (λ s. held s ≤ 22) g.seats

new_seats-room : (n : ℕ) → All (λ s. held s ≤ 22) (replicate n new_seat)
new_seats-room zero = tt
new_seats-room (suc n) = (omega arith, new_seats-room n)

pub new_game-Holds : (decks : ℕ) (r : Rand) → Holds 0 (new_game decks r).0
unfolding new_game sum_by
new_game-Holds decks r = record {
  table = new_game-IsTable decks r;
  total = refl;
  room = (omega arith, new_seats-room 5);
}

-- Another seat with as many cards.
put_seat-Holds :
    (n : ℕ) (g : Game) (i : ℕ) (s : Seat)
    → Holds n g
    → IsTable (put_seat g i s)
    → i < 6
    → held s ≡ held (seat_at g i)
    → Holds n (put_seat g i s)
put_seat-Holds n g i s h t high e =
    let six = Arranged-length g.seats h.table.arranged in
    record {
      table = t;
      total = omega (arith, sum_by-set held g.seats i s new_seat (omega (arith, six)), h.total, e);
      room =
          All-set (λ s. held s ≤ 22) g.seats i s h.room
            (omega (
              arith,
              e,
              All-get_or (λ s. held s ≤ 22) g.seats i new_seat h.room (omega (arith, six)),
            ));
    }

pub join-Holds : (n : ℕ) (g : Game) (u : ℕ) → Holds n g → Holds n (join g u).0
join-Holds n g u h =
    (elim (join-Joins g u h.table) as (λ r w. IsTable r.0 → Holds n r.0) [
      | seated _ ↦ λ t. h
      | full _ _ ↦ λ t. h
      | given i _ low high _ ↦ λ t. put_seat-Holds n g i (taken (seat_at g i) u) h t high refl
    ])
      (join-IsTable g u h.table)

pub bet-Holds : (n : ℕ) (g : Game) (u : ℕ) → Holds n g → Holds n (bet g u).0
bet-Holds n g u h =
    (elim (bet-Bets g u h.table) as (λ r w. IsTable r.0 → Holds n r.0) [
      | away _ ↦ λ t. h
      | closed _ _ _ ↦ λ t. h
      | staked i low high _ _ ↦ λ t. put_seat-Holds n g i (stake (seat_at g i)) h t high refl
    ])
      (bet-IsTable g u h.table)

pub surrender-Holds : (n : ℕ) (g : Game) (u : ℕ) → Holds n g → Holds n (surrender g u).0
surrender-Holds n g u h =
    (elim (surrender-Surrenders g u h.table) as (λ r w. IsTable r.0 → Holds n r.0) [
      | seatless _ ↦ λ t. h
      | opens i low high _ ↦
          λ t. put_seat-Holds n g i (record (seat_at g i) { state = opened }) h t high refl
    ])
      ((surrender_facts g u h.table).0)

held-with_card :
    (hands : List Hand) (c : ℕ)
    → 0 < length hands
    → length (turn_cards (with_card hands c)) ≡ suc (length (turn_cards hands))
held-with_card [] c h = absurd (omega arith)
held-with_card (x ∷ hands) c h = omega (arith, length-append x.cards (c ∷ []))

dealt-Holds :
    (n : ℕ) (g : Game) (r : Rand)
    → Holds n g
    → held (seat_at g g.turn) < 22
    → Holds (suc n) (dealt g r)
dealt-Holds n g r h lt =
    let t = h.table in
    let six = Arranged-length g.seats t.arranged in
    let s : Seat = record (seat_at g g.turn) {
      hands = with_card (turn_hands g) (deal g.shoe r).0;
    } in
    let one =
      held-with_card (turn_hands g) (deal g.shoe r).0
        (seat_at-hand g g.turn t.arranged t.turn_within) in
    record {
      table = dealt-IsTable g r t;
      total = omega (
        arith,
        sum_by-set held g.seats g.turn s new_seat (omega (arith, six, t.turn_within)),
        h.total,
        one,
      );
      room = All-set (λ s. held s ≤ 22) g.seats g.turn s h.room (omega (arith, one, lt));
    }

pub start-Holds :
    (n : ℕ) (g g' : Game) (r r' : Rand)
    → Holds n g
    → started (start g r) ≡ some (g', r')
    → Holds (suc n) g'
start-Holds n g g' r r' h e = elim (Bool-cases (ltb (held (seat_at g g.turn)) 22)) [
  | inl room ↦
      let lt = ltb→lt (held (seat_at g g.turn)) 22 room in
      subst (Holds (suc n)) (cc ((start_deals g r h.table lt).0)) (dealt-Holds n g r h lt)
  | inr none_left ↦ cc (start_throws g r h.table (ground arith))
]
