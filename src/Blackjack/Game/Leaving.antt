-- ===== src/Blackjack/Game/Leaving.antt =====
-- What leave() does to the table, on every branch.
use beast_lounge.Base.{
  ℕ, ◌<◌, ◌≡◌, ◌≢◌, refl, sym, subst, ◌∙◌, inl, inr, true, List, [], ◌∷◌, length, Option, none,
  some, arith,
}
use beast_lounge.Base.Int.{pos}
use beast_lounge.Blackjack.Hand.{Hand, empty}
use beast_lounge.Blackjack.Seat.{
  Error, not_playing, already_playing, already_leaving, State, dealer, waiting, playing, leaving,
  opened, Seat, clear, sits,
}
use beast_lounge.Blackjack.Game.{Game, seat_at, put_seat, find, join, leave, leave_seat}
use beast_lounge.Blackjack.Game.Moves.{pos_ne_zero, join_refused}
use beast_lounge.Blackjack.Game.Seating.{
  places, IsPlace, IsTable, find_lem, seat_at-IsPlace, put_seat-IsTable, places_pos,
}
use beast_lounge.Blackjack.Game.Surrender.{places-put, sits_nobody, open_empty, opened_seat-IsPlace}

-- A player's seat after leave(): the player keeps it as one who is leaving, without a wager, with 1000
-- chips and with nothing in the first hand.
pub record Emptied (s s' : Seat) : Type 0 where
  marked : s'.state ≡ leaving
  same_user : s'.user ≡ s.user
  no_wager : s'.wager ≡ pos 0
  chips_set : s'.chips ≡ some (pos 1000)
  emptied : (h : Hand) (hands : List Hand) → s.hands ≡ h ∷ hands → s'.hands ≡ empty ∷ hands

clear-Emptied : (s : Seat) → Emptied s (clear (record s { state = leaving }))
unfolding clear
clear-Emptied s = record {
  marked = refl;
  same_user = refl;
  no_wager = refl;
  chips_set = refl;
  emptied = λ h hands e. rw e refl;
}

-- What leave() may do to a user: nothing without a seat or a second time, else open a waiting
-- user's seat or mark a player's as leaving, cleared.
pub data Leaves (g : Game) (u : ℕ) : Game × ℕ × Option Error → Type 0 where
  away : places u g.seats ≡ 0 → Leaves g u (g, 0, some not_playing)
  waited :
      (i : ℕ)
      → 0 < i
      → i < 6
      → sits u (seat_at g i) ≡ true
      → (seat_at g i).state ≡ waiting
      → Leaves g u (put_seat g i (record (seat_at g i) { state = opened }), 2, none)
  played :
      (i : ℕ)
      → 0 < i
      → i < 6
      → sits u (seat_at g i) ≡ true
      → (seat_at g i).state ≡ playing
      → (s' : Seat) → Emptied (seat_at g i) s'
      → Leaves g u (put_seat g i s', 1, none)
  again :
      (i : ℕ)
      → sits u (seat_at g i) ≡ true
      → (seat_at g i).state ≡ leaving
      → Leaves g u (g, 0, some already_leaving)

leave_seat-Leaves :
    (g : Game) (u i : ℕ) (st : State)
    → 0 < i
    → i < 6
    → sits u (seat_at g i) ≡ true
    → IsPlace (seat_at g i)
    → (seat_at g i).state ≡ st
    → Leaves g u (leave_seat st g i)
unfolding leave_seat
leave_seat-Leaves g u i waiting low high here p e = waited i low high here e
leave_seat-Leaves g u i playing low high here p e =
    played i low high here e _ (clear-Emptied (seat_at g i))
leave_seat-Leaves g u i leaving low high here p e = again i here e
leave_seat-Leaves g u i dealer low high here p e = absurd (p.not_dealer e)
leave_seat-Leaves g u i opened low high here p e = absurd (cc (here, sits_nobody (seat_at g i) u e))

-- leave() refuses a user without a seat, or who is leaving already, and changes nothing then; a
-- waiting user's seat is opened and nothing else of it changes; and a player keeps the seat, marked as
-- leaving, with its first hand emptied, no wager and 1000 chips.
pub leave-Leaves : (g : Game) (u : ℕ) → IsTable g → Leaves g u (leave g u)
unfolding leave
leave-Leaves g u t = elim (find_lem g u t.arranged) [
  | inl (e, none_here) ↦ rw (e, leave) (away none_here)
  | inr (low, high, here) ↦
      rw (pos_ne_zero (find g u) low, leave)
        (leave_seat-Leaves g u (find g u) (seat_at g (find g u)).state low high here
          (seat_at-IsPlace g (find g u) t.arranged low high) refl)
]

Emptied-IsPlace : (s s' : Seat) → IsPlace s → s.state ≡ playing → Emptied s s' → IsPlace s'
Emptied-IsPlace s s' p e h = record {
  not_dealer = λ k. cc (h.marked, k);
  has_hand = filled s.hands refl p.has_hand;
  has_user = λ k. subst (λ o. o ≢ none) (sym h.same_user) (p.has_user (λ q. cc (q, e)));
}
  where
    filled : (hands : List Hand) → s.hands ≡ hands → 0 < length hands → 0 < length s'.hands
    filled [] q l = absurd (omega (arith, l))
    filled (x ∷ xs) q l = rw (h.emptied x xs q) (omega arith)

sits-Emptied : (s s' : Seat) (v : ℕ) → s.state ≡ playing → Emptied s s' → sits v s' ≡ sits v s
unfolding sits
sits-Emptied s s' v e h = rw (h.marked, h.same_user, e) refl

pub leave-IsTable : (g : Game) (u : ℕ) → IsTable g → IsTable (leave g u).0
leave-IsTable g u t = elim (leave-Leaves g u t) as (λ r w. IsTable r.0) [
  | away _ ↦ t
  | again _ _ _ ↦ t
  | waited i low high here e ↦
      put_seat-IsTable g i (record (seat_at g i) { state = opened }) t low high
        (opened_seat-IsPlace (seat_at g i) (seat_at-IsPlace g i t.arranged low high))
        (λ v k. absurd (open_empty (seat_at g i) v k))
  | played i low high here e s' h ↦
      put_seat-IsTable g i s' t low high
        (Emptied-IsPlace (seat_at g i) s' (seat_at-IsPlace g i t.arranged low high) e h)
        (λ v k. inl (sym (sits-Emptied (seat_at g i) s' v e h) ∙ k))
]

still :
    (g : Game) (u : ℕ)
    → IsTable g
    → {r : Game × ℕ × Option Error} → Leaves g u r
    → r.1 ≡ 1
    → places u r.0.seats ≡ 1
still g u t (away _) e = absurd (omega arith)
still g u t (again _ _ _) e = absurd (omega arith)
still g u t (waited i low high here st) e = absurd (omega arith)
still g u t (played i low high here st s' h) e = ground (
  arith,
  places-put g u i s' t high,
  sits-Emptied (seat_at g i) s' u st h,
  t.once u,
  places_pos g u i t high here,
  here,
)

-- After leave() of a player, which returns 1, the user still has one seat, and join() refuses the
-- user with already_playing and changes nothing.
pub join-leave :
    (g : Game) (u : ℕ)
    → IsTable g
    → (leave g u).1 ≡ 1
    → (places u (leave g u).0.seats ≡ 1)
      × ((join (leave g u).0 u) ≡ ((leave g u).0, 0, some already_playing))
join-leave g u t e =
    let one = still g u t (leave-Leaves g u t) e in
    (one, join_refused (leave g u).0 u (leave-IsTable g u t) (omega (arith, one)))
