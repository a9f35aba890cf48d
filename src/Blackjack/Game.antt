-- ===== src/Blackjack/Game.antt =====
-- The class `game` of server/core/blackjack.cpp. A method that invokes the callback returns the
-- events, at which the state is the one that it returns.
pub mod Seating
pub mod Moves
pub mod Surrender
pub mod Leaving
pub mod Betting
pub mod Dealing
pub mod Runs
pub mod Histories
use beast_lounge.Base.{
  ℕ, zero, suc, ◌+◌, ◌-◌, Bool, true, false, ◌&&◌, ◌||◌, List, [], ◌∷◌, Option, none, some, length,
  get_or, set, replicate, ltb, leb, ◌==◌, if◌then◌else◌,
}
use beast_lounge.Base.Int.{ℤ, pos, negsuc, ◌+ℤ◌, ◌-ℤ◌}
use beast_lounge.Blackjack.Shoe.{Rand, Shoe, shoe}
use beast_lounge.Blackjack.Hand.{Hand, empty}
use beast_lounge.Blackjack.Seat.{
  Error, not_playing, already_playing, already_leaving, no_open_seat, no_more_bets, State, dealer,
  waiting, playing, leaving, opened, Seat, new_seat, clear, is_open, sits, deal_hand,
}

pub data Phase : Type 0 where
  wait play : Phase

-- on_game_bet(), on_game_deal_card()
pub data Event : Type 0 where
  bet_placed card_dealt : Event

pub record Game : Type 0 where
  pub phase : Phase
  pub shoe : Shoe
  pub seats : List Seat
  pub turn : ℕ

-- game(cb, decks)
unfoldable pub new_game : ℕ → Rand → Game × Rand
new_game decks r =
    let (s, r') = shoe decks r in
    (
      record {
        phase = wait;
        shoe = s;
        seats = record new_seat { state = dealer } ∷ replicate 5 new_seat;
        turn = 0;
      },
      r',
    )

-- tick()
abbrev pub tick : Game → Game
tick g = g

-- seat_[i]
abbrev pub seat_at : Game → ℕ → Seat
seat_at g i = get_or g.seats i new_seat

abbrev put_seat : Game → ℕ → Seat → Game
put_seat g i s = record g { seats = set g.seats i s }

find_from : ℕ → ℕ → List Seat → ℕ
find_from u i [] = 0
find_from u i (s ∷ seats) = if sits u s then i else find_from u (suc i) seats

-- find(u): the index of the seat, or 0
unfoldable pub find : Game → ℕ → ℕ
unfolding find_from
find g u = find_from u 0 g.seats

-- The index of the first open seat, from i on.
pub first_open : ℕ → List Seat → Option ℕ
first_open i [] = none
first_open i (s ∷ seats) = if is_open s.state then some i else first_open (suc i) seats

-- join(u, ec): the state, the result and ec
unfoldable pub join : Game → ℕ → Game × ℕ × Option Error
unfolding first_open
join g u =
    if find g u == 0
    then elim (first_open 0 g.seats) [
      | none ↦ (g, 0, some no_open_seat)
      | some i ↦ (put_seat g i (record (seat_at g i) { user = some u; state = playing }), i, none)
    ]
    else (g, 0, some already_playing)

-- insert(u), which nothing calls
unfoldable pub insert : Game → ℕ → Game × ℕ
unfolding first_open
insert g u = elim (first_open 0 g.seats) [
  | none ↦ (g, 0)
  | some i ↦ (put_seat g i (record (seat_at g i) { state = waiting; user = some u }), i)
]

-- The switch of leave().
leave_seat : State → Game → ℕ → Game × ℕ × Option Error
leave_seat waiting g i = (put_seat g i (record (seat_at g i) { state = opened }), 2, none)
leave_seat playing g i = (put_seat g i (clear (record (seat_at g i) { state = leaving })), 1, none)
leave_seat _ g i = (g, 0, some already_leaving)

-- leave(u, ec)
unfoldable pub leave : Game → ℕ → Game × ℕ × Option Error
unfolding leave_seat
leave g u =
    let i = find g u in
    if i == 0 then (g, 0, some not_playing) else leave_seat (seat_at g i).state g i

-- surrender(u)
unfoldable pub surrender : Game → ℕ → Game × ℤ
surrender g u =
    let i = find g u in
    if i == 0
    then (g, negsuc 0)
    else (put_seat g i (record (seat_at g i) { state = opened }), pos 1)

-- The size of each bet.
abbrev pub bet_size : ℤ
bet_size = pos 5

-- wager += size; chips -= size, of uninitialised chips nothing known.
abbrev pub stake : Seat → Seat
stake s = record s {
  wager = s.wager +ℤ bet_size;
  chips = elim s.chips [ none ↦ none | some n ↦ some (n -ℤ bet_size) ];
}

bet_seat : State → Game → ℕ → Game × Option Error × List Event
bet_seat playing g i = (put_seat g i (stake (seat_at g i)), none, bet_placed ∷ [])
bet_seat leaving g i = (put_seat g i (stake (seat_at g i)), none, bet_placed ∷ [])
bet_seat _ g i = (g, some no_more_bets, [])

-- bet(u, ec)
unfoldable pub bet : Game → ℕ → Game × Option Error × List Event
unfolding bet_seat
bet g u =
    let i = find g u in
    if i == 0 then (g, some not_playing, []) else bet_seat (seat_at g i).state g i

-- The hands of a seat after hands[0].deal(s).
deal_first : List Hand → Shoe → Rand → Option (List Hand) × Shoe × Rand
deal_first [] s r = (none, s, r)
deal_first (h ∷ hands) s r =
    let (o, s', r') = deal_hand h s r in
    (elim o [ none ↦ none | some h' ↦ some (h' ∷ hands) ], s', r')

-- deal_one(): `none` is a std::length_error from push_back, which leaves start() as well.
unfoldable pub deal_one : Game → Rand → Option (Game × List Event × Rand)
unfolding deal_first
deal_one g r =
    let (o, s, r') = deal_first (seat_at g g.turn).hands g.shoe r in
    elim o [
      | none ↦ none
      | some hands ↦ some (
        record g {
          shoe = s;
          seats = set g.seats g.turn (record (seat_at g g.turn) { hands = hands });
          turn = if leb (length g.seats) (suc g.turn) then 0 else suc g.turn;
        },
        card_dealt ∷ [],
        r',
      )
    ]

-- start(ec)
unfoldable pub start : Game → Rand → Option (Game × Option Error × List Event × Rand)
unfolding deal_one
start g r = elim (deal_one g r) [
  | none ↦ none
  | some (g', events, r') ↦ some (g', none, events, r')
]
