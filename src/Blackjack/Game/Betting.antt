-- ===== src/Blackjack/Game/Betting.antt =====
-- Bets and cards: what bet() and start() change, and when start() throws.
use beast_lounge.Base.{
  ℕ, ◌<◌, ◌≡◌, refl, sym, subst, ap, ◌∙◌, ◌≢◌, ◌⊎◌, inl, inr, true, false, List, [], ◌∷◌, Option,
  none, some, arith, ◌==◌, Bool-cases, ==_iff,
}
use beast_lounge.Base.Int.{ℤ, pos, ◌+ℤ◌, ◌-ℤ◌, int_laws}
use beast_lounge.Blackjack.Seat.{
  Error, not_playing, no_more_bets, State, dealer, waiting, playing, leaving, opened, Seat, sits,
}
use beast_lounge.Blackjack.Game.{
  Game, Event, bet_placed, seat_at, put_seat, find, bet, bet_seat, stake, bet_size,
}
use beast_lounge.Blackjack.Game.Moves.{pos_ne_zero}
use beast_lounge.Blackjack.Game.Seating.{
  places, IsPlace, IsTable, find_lem, seat_at-put, seat_at-IsPlace, put_seat-IsTable,
}

-- What bet() may do: refuse a user without a seat or one who waits, else stake 5 chips.
pub data Bets (g : Game) (u : ℕ) : Game × Option Error × List Event → Type 0 where
  away : places u g.seats ≡ 0 → Bets g u (g, some not_playing, [])
  closed :
      (i : ℕ)
      → sits u (seat_at g i) ≡ true
      → (seat_at g i).state ≡ waiting
      → Bets g u (g, some no_more_bets, [])
  staked :
      (i : ℕ)
      → 0 < i
      → i < 6
      → sits u (seat_at g i) ≡ true
      → ((seat_at g i).state ≡ playing) ⊎ ((seat_at g i).state ≡ leaving)
      → Bets g u (put_seat g i (stake (seat_at g i)), none, bet_placed ∷ [])

sits_closed : (s : Seat) (u : ℕ) → s.state ≡ opened → sits u s ≡ true → ⊥
unfolding sits
sits_closed s u e h = ground arith

bet_seat-Bets :
    (g : Game) (u i : ℕ) (st : State)
    → 0 < i
    → i < 6
    → sits u (seat_at g i) ≡ true
    → IsPlace (seat_at g i)
    → (seat_at g i).state ≡ st
    → Bets g u (bet_seat st g i)
unfolding bet_seat
bet_seat-Bets g u i playing low high here p e = staked i low high here (inl e)
bet_seat-Bets g u i leaving low high here p e = staked i low high here (inr e)
bet_seat-Bets g u i waiting low high here p e = closed i here e
bet_seat-Bets g u i dealer low high here p e = absurd (p.not_dealer e)
bet_seat-Bets g u i opened low high here p e = absurd (sits_closed (seat_at g i) u e here)

pub bet-Bets : (g : Game) (u : ℕ) → IsTable g → Bets g u (bet g u)
unfolding bet
bet-Bets g u t = elim (find_lem g u t.arranged) [
  | inl (e, none_here) ↦ rw (e, bet) (away none_here)
  | inr (low, high, here) ↦
      rw (pos_ne_zero (find g u) low, bet)
        (bet_seat-Bets g u (find g u) (seat_at g (find g u)).state low high here
          (seat_at-IsPlace g (find g u) t.arranged low high) refl)
]

-- The chips of a seat with those that it has wagered.
abbrev pub stakes : Seat → Option ℤ
stakes s = elim s.chips [ none ↦ none | some n ↦ some (s.wager +ℤ n) ]

pub bet-IsTable : (g : Game) (u : ℕ) → IsTable g → IsTable (bet g u).0
bet-IsTable g u t = elim (bet-Bets g u t) as (λ r w. IsTable r.0) [
  | away _ ↦ t
  | closed _ _ _ ↦ t
  | staked i low high here _ ↦
      let p = seat_at-IsPlace g i t.arranged low high in
      put_seat-IsTable g i (stake (seat_at g i)) t low high
        (record { not_dealer = p.not_dealer; has_hand = p.has_hand; has_user = p.has_user })
        (λ v k. inl (sits-stake (seat_at g i) v k))
]
  where
    sits-stake : (s : Seat) (v : ℕ) → sits v (stake s) ≡ true → sits v s ≡ true
    sits-stake s v k = unfold sits in k

conserved : (w c : ℤ) → w +ℤ bet_size +ℤ (c -ℤ bet_size) ≡ w +ℤ c
conserved w c = omega int_laws

stakes-stake : (s : Seat) → stakes (stake s) ≡ stakes s
stakes-stake s = go s.wager s.chips
  where
    go :
        (w : ℤ) (c : Option ℤ)
        → stakes (stake (record s { wager = w; chips = c }))
          ≡ stakes (record s { wager = w; chips = c })
    go w none = refl
    go w (some c) = ap some (conserved w c)

seat_kept :
    (g : Game) (i j : ℕ) (s : Seat)
    → IsTable g
    → i < 6
    → i ≢ j
    → seat_at (put_seat g i s) j ≡ seat_at g j
seat_kept g i j s t high h = ground (arith, seat_at-put g i j s t high)

stakes-bet :
    (g : Game) (u j : ℕ) → IsTable g → stakes (seat_at (bet g u).0 j) ≡ stakes (seat_at g j)
stakes-bet g u j t =
    elim (bet-Bets g u t) as (λ r w. stakes (seat_at r.0 j) ≡ stakes (seat_at g j)) [
      | away _ ↦ refl
      | closed _ _ _ ↦ refl
      | staked i low high here _ ↦ elim (Bool-cases (i == j)) [
        | inl e ↦
            ap stakes (seat_at-put g i j (stake (seat_at g i)) t high)
            ∙ rw e (stakes-stake (seat_at g i) ∙ ap (λ k. stakes (seat_at g k)) ((==_iff i j).0 e))
        | inr e ↦ ap stakes (seat_kept g i j _ t high (ground arith))
      ]
    ]

-- Five chips of a seat go to the wager: of chips that are not known, nothing is known.
pub record Wagered (s s' : Seat) : Type 0 where
  more_wager : s'.wager ≡ s.wager +ℤ pos 5
  fewer_chips : (n : ℤ) → s.chips ≡ some n → s'.chips ≡ some (n -ℤ pos 5)
  unknown : s.chips ≡ none → s'.chips ≡ none
  same_user : s'.user ≡ s.user
  same_state : s'.state ≡ s.state
  same_hands : s'.hands ≡ s.hands

stake-Wagered : (s : Seat) → Wagered s (stake s)
stake-Wagered s = record {
  more_wager = refl;
  fewer_chips = λ n e. rw e refl;
  unknown = λ e. rw e refl;
  same_user = refl;
  same_state = refl;
  same_hands = refl;
}

-- The table, the error and the events after bet(): a user without a seat, or who waits, is refused and
-- nothing changes; and of a player, or one who is leaving, five chips are wagered.
pub data Betted (g : Game) (u : ℕ) (r : Game × Option Error × List Event) : Type 0 where
  no_seat : places u g.seats ≡ 0 → r ≡ (g, some not_playing, []) → Betted g u r
  too_late :
      (i : ℕ)
      → sits u (seat_at g i) ≡ true
      → (seat_at g i).state ≡ waiting
      → r ≡ (g, some no_more_bets, [])
      → Betted g u r
  wagers :
      (i : ℕ)
      → 0 < i
      → i < 6
      → sits u (seat_at g i) ≡ true
      → ((seat_at g i).state ≡ playing) ⊎ ((seat_at g i).state ≡ leaving)
      → Wagered (seat_at g i) (seat_at r.0 i)
      → r.1 ≡ none
      → r.2 ≡ bet_placed ∷ []
      → Betted g u r

bet-Betted : (g : Game) (u : ℕ) → IsTable g → Betted g u (bet g u)
bet-Betted g u t = elim (bet-Bets g u t) as (λ r w. Betted g u r) [
  | away none_here ↦ no_seat none_here refl
  | closed i here e ↦ too_late i here e refl
  | staked i low high here e ↦
      wagers i low high here e
        (subst (Wagered (seat_at g i))
          (sym (seat_at-put g i i (stake (seat_at g i)) t high ∙ ground arith))
          (stake-Wagered (seat_at g i)))
        refl refl
]

bet_others :
    (g : Game) (u j : ℕ)
    → IsTable g
    → sits u (seat_at g j) ≡ false
    → seat_at (bet g u).0 j ≡ seat_at g j
bet_others g u j t =
    elim (bet-Bets g u t) as (λ r w. sits u (seat_at g j) ≡ false → seat_at r.0 j ≡ seat_at g j) [
      | away _ ↦ λ h. refl
      | closed _ _ _ ↦ λ h. refl
      | staked i low high here _ ↦
          λ h. seat_kept g i j _ t high (λ e. cc (here, h, ap (λ k. sits u (seat_at g k)) e))
    ]

-- bet() keeps the table. A user without a seat, or who waits, is refused and nothing changes; else five
-- chips go from the chips of the user's seat to its wager, if its chips were ever set, and the callback is
-- invoked once. Of no seat the sum of the wager and the chips changes, and no seat changes that the user
-- does not sit in.
pub bet_lem :
    (g : Game) (u j : ℕ)
    → IsTable g
    → IsTable (bet g u).0
      × Betted g u (bet g u)
      × (stakes (seat_at (bet g u).0 j) ≡ stakes (seat_at g j))
      × ((sits u (seat_at g j) ≡ true) ⊎ (seat_at (bet g u).0 j ≡ seat_at g j))
bet_lem g u j t = (
  bet-IsTable g u t,
  bet-Betted g u t,
  stakes-bet g u j t,
  elim (Bool-cases (sits u (seat_at g j))) [
    | inl here ↦ inl here
    | inr elsewhere ↦ inr (bet_others g u j t elsewhere)
  ],
)
