-- ===== src/Blackjack/Game/Seating.antt =====
-- Who sits where: the dealer in seat 0, and each user in at most one other seat.
use beast_lounge.Base.{
  ℕ, zero, suc, ◌+◌, ◌≤◌, ◌<◌, ◌≡◌, refl, ap, ◌∙◌, ◌≢◌, ◌⊎◌, inl, inr, true, false, List, [], ◌∷◌,
  none, some, length, arith, get_or, set, ◌==◌, if◌then◌else◌, All, count_if, count_if-set,
  count_if-pos, count_if_unique, All-set, All-get_or, length-set, get_or-set, Bool-cases,
}
use beast_lounge.Blackjack.Seat.{
  State, dealer, waiting, playing, leaving, opened, Seat, new_seat, is_open, sits,
}
use beast_lounge.Blackjack.Game.{Game, seat_at, put_seat, find_from, find, first_open}

-- In how many of these seats a user sits.
abbrev pub places : ℕ → List Seat → ℕ
places u = count_if (sits u)

-- A seat of a player: it has a hand, and if it is taken a user.
pub record IsPlace (s : Seat) : Type 0 where
  pub not_dealer : s.state ≢ dealer
  pub has_hand : 0 < length s.hands
  pub has_user : s.state ≢ opened → s.user ≢ none

-- The dealer's seat, which no user takes.
pub record IsDealer (s : Seat) : Type 0 where
  pub dealer_state : s.state ≡ dealer
  pub no_user : s.user ≡ none
  pub dealer_hand : 0 < length s.hands

abbrev pub Arranged : List Seat → Type 0
Arranged [] = ⊥
Arranged (d ∷ seats) = IsDealer d × All IsPlace seats × (length seats ≡ 5)

pub record IsTable (g : Game) : Type 0 where
  pub arranged : Arranged g.seats
  pub turn_within : g.turn < 6
  pub once : (u : ℕ) → places u g.seats ≤ 1

-- What the search from seat i finds.
abbrev Found : ℕ → ℕ → List Seat → ℕ → Type 0
Found u i seats k =
    ((k ≡ 0) × (places u seats ≡ 0))
    ⊎ ((j : ℕ) × (j < length seats) × (k ≡ i + j) × (sits u (get_or seats j new_seat) ≡ true))

find_from-Found : (u i : ℕ) (seats : List Seat) → Found u i seats (find_from u i seats)
unfolding find_from count_if
find_from-Found u i [] = inl (refl, refl)
find_from-Found u i (s ∷ seats) = elim (Bool-cases (sits u s)) [
  | inl e ↦ rw e (inr (0, omega arith, omega arith, e))
  | inr e ↦ rw e (elim (find_from-Found u (suc i) seats) [
    | inl (k, away) ↦ inl (k, omega (arith, away))
    | inr (j, lt, k, here) ↦ inr (suc j, omega (arith, lt), omega (arith, k), here)
  ])
]

dealer_away : (u : ℕ) (d : Seat) → IsDealer d → sits u d ≡ false
unfolding sits
dealer_away u d v = rw (v.dealer_state, v.no_user)

one_add : (j : ℕ) → 1 + j ≡ suc j
one_add j = omega arith

find_from_lem :
    (u : ℕ) (seats : List Seat)
    → Arranged seats
    → ((find_from u 0 seats ≡ 0) × (places u seats ≡ 0))
      ⊎ ((0 < find_from u 0 seats)
          × (find_from u 0 seats < 6)
          × (sits u (get_or seats (find_from u 0 seats) new_seat) ≡ true))
unfolding find_from count_if
find_from_lem u [] a = absurd a
find_from_lem u (d ∷ seats) a = rw (dealer_away u d a.0) (elim (find_from-Found u 1 seats) [
  | inl (k, away) ↦ inl (k, omega (arith, away))
  | inr (j, lt, k, here) ↦ inr (rw (k, one_add) (omega arith, omega (arith, lt, a.2), here))
])

-- find() gives a seat of the user, or 0 and the user has none.
pub find_lem :
    (g : Game) (u : ℕ)
    → Arranged g.seats
    → ((find g u ≡ 0) × (places u g.seats ≡ 0))
      ⊎ ((0 < find g u) × (find g u < 6) × (sits u (seat_at g (find g u)) ≡ true))
unfolding find
find_lem g u a = find_from_lem u g.seats a

first_open_lem :
    (i : ℕ) (seats : List Seat)
    → ((first_open i seats ≡ none) × All (λ s. is_open s.state ≡ false) seats)
      ⊎ ((j : ℕ) × (j < length seats)
          × (first_open i seats ≡ some (i + j))
          × (is_open (get_or seats j new_seat).state ≡ true))
unfolding first_open
first_open_lem i [] = inl (refl, tt)
first_open_lem i (s ∷ seats) = elim (Bool-cases (is_open s.state)) [
  | inl e ↦ rw e (inr (0, omega arith, ground arith, e))
  | inr e ↦ rw e (elim (first_open_lem (suc i) seats) [
    | inl (k, all) ↦ inl (k, (refl, all))
    | inr (j, lt, k, here) ↦ inr (suc j, omega (arith, lt), ground (arith, k), here)
  ])
]

pub Arranged-length : (seats : List Seat) → Arranged seats → length seats ≡ 6
Arranged-length [] a = absurd a
Arranged-length (d ∷ seats) a = omega (arith, a.2)

Arranged-set :
    (seats : List Seat) (i : ℕ) (s : Seat)
    → 0 < i
    → IsPlace s
    → Arranged seats
    → Arranged (set seats i s)
Arranged-set [] i s h p a = absurd a
Arranged-set (d ∷ seats) zero s h p a = absurd (omega arith)
Arranged-set (d ∷ seats) (suc i) s h p a =
    (a.0, All-set IsPlace seats i s a.1 p, omega (arith, length-set seats i s, a.2))

pub seat_at-IsPlace : (g : Game) (i : ℕ) → Arranged g.seats → 0 < i → i < 6 → IsPlace (seat_at g i)
seat_at-IsPlace g i a low high = go g.seats i a low high
  where
    go :
        (seats : List Seat) (i : ℕ)
        → Arranged seats
        → 0 < i
        → i < 6
        → IsPlace (get_or seats i new_seat)
    go [] i a low high = absurd a
    go (d ∷ seats) zero a low high = absurd (omega arith)
    go (d ∷ seats) (suc i) a low high = All-get_or IsPlace seats i new_seat a.1 (omega (arith, a.2))

-- A new state of one player's seat keeps the table, if it seats nobody who sits elsewhere.
pub put_seat-IsTable :
    (g : Game) (i : ℕ) (s : Seat)
    → IsTable g
    → 0 < i
    → i < 6
    → IsPlace s
    → ((v : ℕ) → sits v s ≡ true → (sits v (seat_at g i) ≡ true) ⊎ (places v g.seats ≡ 0))
    → IsTable (put_seat g i s)
put_seat-IsTable g i s t low high p new = record {
  arranged = Arranged-set g.seats i s low p t.arranged;
  turn_within = t.turn_within;
  once = λ v. ground (
    arith,
    count_if-set (sits v) g.seats i s new_seat (omega (arith, Arranged-length g.seats t.arranged)),
    t.once v,
    new v,
  );
}

-- A user who sits in a seat is found there.
pub find_unique :
    (g : Game) (u i : ℕ) → IsTable g → i < 6 → sits u (seat_at g i) ≡ true → find g u ≡ i
find_unique g u i t high e =
    let six = Arranged-length g.seats t.arranged in
    elim (find_lem g u t.arranged) [
      | inl (k, away) ↦
          absurd
            (omega (arith, away, count_if-pos (sits u) g.seats i new_seat (omega (arith, six)) e))
      | inr (low, lt, here) ↦
          count_if_unique (sits u) g.seats (find g u) i new_seat (t.once u) (omega (arith, six, lt))
            (omega (arith, six)) here e
    ]

pub places_pos :
    (g : Game) (u i : ℕ) → IsTable g → i < 6 → sits u (seat_at g i) ≡ true → 0 < places u g.seats
places_pos g u i t high e =
    count_if-pos (sits u) g.seats i new_seat (omega (arith, Arranged-length g.seats t.arranged)) e

-- Reading back the seat that was put.
pub seat_at-put :
    (g : Game) (i j : ℕ) (s : Seat)
    → IsTable g
    → i < 6
    → seat_at (put_seat g i s) j ≡ (if i == j then s else seat_at g j)
seat_at-put g i j s t high =
    get_or-set g.seats i j s new_seat (omega (arith, Arranged-length g.seats t.arranged))

-- An open seat that first_open finds is a player's.
pub first_open_place :
    (g : Game)
    → IsTable g
    → ((first_open 0 g.seats ≡ none) × All (λ s. is_open s.state ≡ false) g.seats)
      ⊎ ((i : ℕ) × (0 < i)
          × (i < 6)
          × (first_open 0 g.seats ≡ some i)
          × ((seat_at g i).state ≡ opened))
first_open_place g t = elim (first_open_lem 0 g.seats) [
  | inl closed ↦ inl closed
  | inr (i, lt, e, here) ↦
      let six = Arranged-length g.seats t.arranged in
      inr (
        i,
        not_first g.seats i t.arranged here,
        omega (arith, lt, six),
        e ∙ ap some (omega arith),
        is_open_lem (seat_at g i).state here,
      )
]
  where
    is_open_lem : (s : State) → is_open s ≡ true → s ≡ opened
    is_open_lem opened e = refl
    is_open_lem dealer e = cc
    is_open_lem waiting e = cc
    is_open_lem playing e = cc
    is_open_lem leaving e = cc

    not_first :
        (seats : List Seat) (i : ℕ)
        → Arranged seats
        → is_open (get_or seats i new_seat).state ≡ true
        → 0 < i
    not_first [] i a e = absurd a
    not_first (d ∷ seats) zero a e = ground (arith, a.0.dealer_state)
    not_first (d ∷ seats) (suc i) a e = omega arith
