-- ===== src/Blackjack/Game/Surrender.antt =====
-- What surrender() does to the table.
use beast_lounge.Base.{
  ◌⊎◌, Bool-cases, ==_iff, ◌==◌, ℕ, ◌+◌, ◌<◌, ◌≡◌, refl, ◌≢◌, ◌↔◌, inl, inr, true, false, arith,
  if◌then◌else◌, count_if-set,
}
use beast_lounge.Base.Int.{ℤ, pos, negsuc}
use beast_lounge.Blackjack.Seat.{opened, Seat, new_seat, sits}
use beast_lounge.Blackjack.Game.{Game, seat_at, put_seat, find, surrender}
use beast_lounge.Blackjack.Game.Moves.{pos_ne_zero}
use beast_lounge.Blackjack.Game.Seating.{
  places, IsPlace, IsTable, Arranged-length, find_lem, seat_at-IsPlace, put_seat-IsTable,
  places_pos,
}

-- Every user but this one sits as before.
abbrev pub OthersKept : ℕ → Game → Game → Type 0
OthersKept u g g' = (v : ℕ) → v ≢ u → places v g'.seats ≡ places v g.seats

pub not_other : (s : Seat) (u v : ℕ) → v ≢ u → sits u s ≡ true → sits v s ≡ false
unfolding sits
not_other s u v h e = ground arith

-- One seat more or less for the users of the new and the old seat.
pub places-put :
    (g : Game) (v i : ℕ) (s : Seat)
    → IsTable g
    → i < 6
    → places v (put_seat g i s).seats + (if sits v (seat_at g i) then 1 else 0)
      ≡ places v g.seats + (if sits v s then 1 else 0)
places-put g v i s t high =
    count_if-set (sits v) g.seats i s new_seat (omega (arith, Arranged-length g.seats t.arranged))

pub put_seat-OthersKept :
    (g : Game) (u i : ℕ) (s : Seat)
    → IsTable g
    → i < 6
    → sits u (seat_at g i) ≡ true
    → ((v : ℕ) → v ≢ u → sits v s ≡ false)
    → OthersKept u g (put_seat g i s)
put_seat-OthersKept g u i s t high here new v h =
    ground (arith, places-put g v i s t high, not_other (seat_at g i) u v h here, new v h)

-- The seat of the user, with another state, is open or still the user's.
pub sits_same :
    (s s' : Seat) (u v : ℕ)
    → s'.user ≡ s.user
    → sits u s ≡ true
    → sits v s' ≡ true
    → sits v s ≡ true
unfolding sits
sits_same s s' u v e h k = ground arith

pub sits_nobody : (s : Seat) (v : ℕ) → s.state ≡ opened → sits v s ≡ false
unfolding sits
sits_nobody s v e = rw e

pub open_empty : (s : Seat) (v : ℕ) → sits v (record s { state = opened }) ≡ true → ⊥
open_empty s v h = cc (sits_nobody (record s { state = opened }) v refl)

pub opened_seat-IsPlace : (s : Seat) → IsPlace s → IsPlace (record s { state = opened })
opened_seat-IsPlace s p = record {
  not_dealer = λ e. cc;
  has_hand = p.has_hand;
  has_user = λ h. absurd (h refl);
}

-- All that surrender() does to the seats.
pub surrender_facts :
    (g : Game) (u : ℕ)
    → IsTable g
    → IsTable (surrender g u).0
      × (places u (surrender g u).0.seats ≡ 0)
      × OthersKept u g (surrender g u).0
      × (((surrender g u).1 ≡ pos 1) ↔ (0 < places u g.seats))
      × (((surrender g u).1 ≡ negsuc 0) ↔ (places u g.seats ≡ 0))
unfolding surrender
surrender_facts g u t = elim (find_lem g u t.arranged) [
  | inl (e, away) ↦
      rw (e, surrender)
        (t, away, λ v h. refl, (λ h. cc, λ h. absurd (omega arith)), (λ h. away, λ h. refl))
  | inr (low, high, here) ↦
      let i : ℕ = find g u in
      let had = places_pos g u i t high here in
      rw (pos_ne_zero i low, surrender)
        (
          put_seat-IsTable g i (record (seat_at g i) { state = opened }) t low high
              (opened_seat-IsPlace (seat_at g i) (seat_at-IsPlace g i t.arranged low high))
              (λ v k. absurd (open_empty (seat_at g i) v k)),
          ground (
            arith,
            places-put g u i (record (seat_at g i) { state = opened }) t high,
            sits_nobody (record (seat_at g i) { state = opened }) u refl,
            t.once u,
            here,
          ),
          put_seat-OthersKept g u i (record (seat_at g i) { state = opened }) t high here
              (λ v h. sits_nobody _ v refl),
          (λ h. had, λ h. refl),
          (λ h. cc, λ h. absurd (omega arith)),
        )
]

pub surrender_others :
    (g : Game) (u v : ℕ) → IsTable g → v ≢ u → places v (surrender g u).0.seats ≡ places v g.seats
surrender_others g u v t h = (surrender_facts g u t).2 v h

-- After surrender() the user has no seat, and the table is kept; it returns 1 exactly if the user
-- had a seat before, and -1 exactly if the user had none; and every other user sits in as many seats
-- as before.
pub surrender_lem :
    (g : Game) (u v : ℕ)
    → IsTable g
    → IsTable (surrender g u).0
      × (places u (surrender g u).0.seats ≡ 0)
      × (((surrender g u).1 ≡ pos 1) ↔ (0 < places u g.seats))
      × (((surrender g u).1 ≡ negsuc 0) ↔ (places u g.seats ≡ 0))
      × ((v ≡ u) ⊎ (places v (surrender g u).0.seats ≡ places v g.seats))
surrender_lem g u v t =
    let (keeps, gone, _, had, lacked) = surrender_facts g u t in
    (
      keeps,
      gone,
      had,
      lacked,
      elim (Bool-cases (v == u)) [
        | inl same ↦ inl ((==_iff v u).0 same)
        | inr other ↦ inr (surrender_others g u v t (λ e. cc (other, (==_iff v u).1 e)))
      ],
    )

-- The two ways of surrender().
pub data Surrenders (g : Game) (u : ℕ) : Game × ℤ → Type 0 where
  seatless : places u g.seats ≡ 0 → Surrenders g u (g, negsuc 0)
  opens :
      (i : ℕ)
      → 0 < i
      → i < 6
      → sits u (seat_at g i) ≡ true
      → Surrenders g u (put_seat g i (record (seat_at g i) { state = opened }), pos 1)

pub surrender-Surrenders : (g : Game) (u : ℕ) → IsTable g → Surrenders g u (surrender g u)
unfolding surrender
surrender-Surrenders g u t = elim (find_lem g u t.arranged) [
  | inl (e, away) ↦ rw (e, surrender) (seatless away)
  | inr (low, high, here) ↦
      rw (pos_ne_zero (find g u) low, surrender) (opens (find g u) low high here)
]
