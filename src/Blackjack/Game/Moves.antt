-- ===== src/Blackjack/Game/Moves.antt =====
-- What join, leave, surrender and bet do to the table, on every branch.
use beast_lounge.Base.{
  ℕ, ◌<◌, ◌≡◌, refl, sym, ap, ◌∙◌, inl, inr, true, false, Option, none, some, arith, ◌==◌, All,
}
use beast_lounge.Blackjack.Seat.{
  Error, already_playing, no_open_seat, playing, opened, Seat, is_open, sits,
}
use beast_lounge.Blackjack.Game.{Game, seat_at, put_seat, find, join}
use beast_lounge.Blackjack.Game.Seating.{
  places, IsPlace, IsTable, find_lem, find_unique, seat_at-put, seat_at-IsPlace, put_seat-IsTable,
  first_open_place, places_pos,
}

pub pos_ne_zero : (n : ℕ) → 0 < n → (n == 0) ≡ false
pos_ne_zero n h = ground arith

-- The seat as a user takes it.
abbrev pub taken : Seat → ℕ → Seat
taken s u = record s { user = some u; state = playing }

-- What join() may do: refuse a user who has a seat, refuse when no seat is open, or give an open
-- seat to the user, as the last player left it.
pub data Joins (g : Game) (u : ℕ) : Game × ℕ × Option Error → Type 0 where
  seated : 0 < places u g.seats → Joins g u (g, 0, some already_playing)
  full :
      places u g.seats ≡ 0
      → All (λ s. is_open s.state ≡ false) g.seats
      → Joins g u (g, 0, some no_open_seat)
  given :
      (i : ℕ)
      → places u g.seats ≡ 0
      → 0 < i
      → i < 6
      → (seat_at g i).state ≡ opened
      → Joins g u (put_seat g i (taken (seat_at g i) u), i, none)

-- join() refuses a user who has a seat, or anyone when no seat is open, and changes nothing then; else
-- it gives an open seat to the user, as the last player left it but for the user and the state.
pub join-Joins : (g : Game) (u : ℕ) → IsTable g → Joins g u (join g u)
unfolding join
join-Joins g u t = elim (find_lem g u t.arranged) [
  | inl (e, away) ↦ elim (first_open_place g t) [
    | inl (closed, all) ↦ rw (e, join) (rw (closed, join) (full away all))
    | inr (i, low, high, found, open_at) ↦
        rw (e, join) (rw (found, join) (given i away low high open_at))
  ]
  | inr (low, high, here) ↦
      rw (pos_ne_zero (find g u) low, join) (seated (places_pos g u (find g u) t high here))
]

taken-IsPlace : (s : Seat) (u : ℕ) → IsPlace s → IsPlace (taken s u)
taken-IsPlace s u p = record { not_dealer = λ e. cc; has_hand = p.has_hand; has_user = λ h e. cc }

sits-taken_user : (s : Seat) (u v : ℕ) → sits v (taken s u) ≡ true → u ≡ v
unfolding sits
sits-taken_user s u v h = ground arith

pub given-IsTable :
    (g : Game) (u i : ℕ)
    → IsTable g
    → places u g.seats ≡ 0
    → 0 < i
    → i < 6
    → IsTable (put_seat g i (taken (seat_at g i) u))
given-IsTable g u i t away low high =
    put_seat-IsTable g i _ t low high
      (taken-IsPlace (seat_at g i) u (seat_at-IsPlace g i t.arranged low high))
      (λ v h. inr (ap (λ w. places w g.seats) (sym (sits-taken_user (seat_at g i) u v h)) ∙ away))

-- join() keeps the table, and a user who joins is found in the seat that it returns.
pub join-IsTable : (g : Game) (u : ℕ) → IsTable g → IsTable (join g u).0
join-IsTable g u t = elim (join-Joins g u t) as (λ r w. IsTable r.0) [
  | seated _ ↦ t
  | full _ _ ↦ t
  | given i away low high _ ↦ given-IsTable g u i t away low high
]

-- A user who has a seat is refused.
pub join_refused :
    (g : Game) (u : ℕ) → IsTable g → 0 < places u g.seats → join g u ≡ (g, 0, some already_playing)
join_refused g u t h = elim (join-Joins g u t) as (λ r w. r ≡ (g, 0, some already_playing)) [
  | seated _ ↦ refl
  | full away _ ↦ absurd (omega (arith, away, h))
  | given i away low high e ↦ absurd (omega (arith, away, h))
]

sits-taken : (s : Seat) (u : ℕ) → sits u (taken s u) ≡ true
unfolding sits
sits-taken s u = ground arith

-- Where join() returns no error, it returns a player's seat, and find() then gives that seat for the
-- user.
pub find-join :
    (g : Game) (u : ℕ)
    → IsTable g
    → (join g u).2 ≡ none
    → (0 < (join g u).1) × (find (join g u).0 u ≡ (join g u).1)
find-join g u t = elim (join-Joins g u t) as (λ r w. r.2 ≡ none → (0 < r.1) × (find r.0 u ≡ r.1)) [
  | seated _ ↦ λ e. cc
  | full _ _ ↦ λ e. cc
  | given i away low high _ ↦ λ e. (
    low,
    find_unique (put_seat g i (taken (seat_at g i) u)) u i (given-IsTable g u i t away low high)
        high
        (rw (seat_at-put g i i (taken (seat_at g i) u) t high, same i)
          (sits-taken (seat_at g i) u)),
  )
]
  where
    same : (i : ℕ) → (i == i) ≡ true
    same i = ground arith
