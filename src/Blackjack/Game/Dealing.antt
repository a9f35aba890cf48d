-- ===== src/Blackjack/Game/Dealing.antt =====
-- start(), which deals one card to the seat whose turn it is.
use beast_lounge.Base.{
  ℕ, zero, suc, ◌≤◌, ◌<◌, ◌≡◌, refl, List, [], ◌∷◌, ◌++◌, none, some, length, arith, get_or, set,
  ltb, leb, if◌then◌else◌, All-set, All-get_or, length-set, count_if-set,
}
use beast_lounge.Blackjack.Shoe.{Rand, Shoe, deal}
use beast_lounge.Blackjack.Hand.{Hand, push_back}
use beast_lounge.Blackjack.Seat.{Seat, new_seat, sits, deal_hand}
use beast_lounge.Blackjack.Game.{Game, card_dealt, seat_at, deal_first, start}
use beast_lounge.Blackjack.Game.Seating.{IsPlace, IsTable, Arranged, Arranged-length}

-- The hand that is dealt to: hands[0] of the seat at turn_.
abbrev pub turn_cards : List Hand → List ℕ
turn_cards [] = []
turn_cards (h ∷ hands) = h.cards

abbrev pub turn_hands : Game → List Hand
turn_hands g = (seat_at g g.turn).hands

-- The hands after a card.
abbrev pub with_card : List Hand → ℕ → List Hand
with_card [] c = []
with_card (h ∷ hands) c = record h { cards = h.cards ++ c ∷ [] } ∷ hands

deal_first_lem :
    (hands : List Hand) (s : Shoe) (r : Rand)
    → 0 < length hands
    → (deal_first hands s r).0
      ≡ (if ltb (length (turn_cards hands)) 22 then some (with_card hands (deal s r).0) else none)
unfolding deal_first deal_hand push_back
deal_first_lem [] s r h = absurd (omega arith)
deal_first_lem (h ∷ hands) s r lt = ground arith

-- The table after a card: the next seat's turn, the shoe as deal() leaves it.
abbrev pub dealt : Game → Rand → Game
dealt g r = record g {
  shoe = (deal g.shoe r).1;
  seats =
      set g.seats g.turn
        (record (seat_at g g.turn) { hands = with_card (turn_hands g) (deal g.shoe r).0 });
  turn = if leb (length g.seats) (suc g.turn) then 0 else suc g.turn;
}

deal_first_shoe :
    (hands : List Hand) (s : Shoe) (r : Rand)
    → 0 < length hands
    → ((deal_first hands s r).1 ≡ (deal s r).1) × ((deal_first hands s r).2 ≡ (deal s r).2)
unfolding deal_first deal_hand
deal_first_shoe [] s r h = absurd (omega arith)
deal_first_shoe (h ∷ hands) s r lt = (refl, refl)

-- A player's seat or the dealer's has a hand.
pub seat_at-hand : (g : Game) (i : ℕ) → Arranged g.seats → i < 6 → 0 < length (seat_at g i).hands
seat_at-hand g i a high = go g.seats i a high
  where
    go :
        (seats : List Seat) (i : ℕ)
        → Arranged seats
        → i < 6
        → 0 < length (get_or seats i new_seat).hands
    go [] i a high = absurd a
    go (d ∷ seats) zero a high = a.0.dealer_hand
    go (d ∷ seats) (suc i) a high =
        (All-get_or IsPlace seats i new_seat a.1 (omega (arith, a.2))).has_hand

Arranged-hands :
    (seats : List Seat) (i : ℕ) (hands : List Hand)
    → 0 < length hands
    → i < 6
    → Arranged seats
    → Arranged (set seats i (record (get_or seats i new_seat) { hands = hands }))
Arranged-hands [] i hands h lt a = absurd a
Arranged-hands (d ∷ seats) zero hands h lt a =
    (record { dealer_state = a.0.dealer_state; no_user = a.0.no_user; dealer_hand = h }, a.1, a.2)
Arranged-hands (d ∷ seats) (suc i) hands h lt a =
    let p = All-get_or IsPlace seats i new_seat a.1 (omega (arith, a.2)) in
    (
      a.0,
      All-set IsPlace seats i _ a.1
          (record { not_dealer = p.not_dealer; has_hand = h; has_user = p.has_user }),
      omega (arith, length-set seats i (record (get_or seats i new_seat) { hands = hands }), a.2),
    )

pub length-with_card : (hands : List Hand) (c : ℕ) → length (with_card hands c) ≡ length hands
length-with_card [] c = refl
length-with_card (h ∷ hands) c = refl

sits-hands : (s : Seat) (v : ℕ) (hands : List Hand) → sits v (record s { hands = hands }) ≡ sits v s
unfolding sits
sits-hands s v hands = refl

pub dealt-IsTable : (g : Game) (r : Rand) → IsTable g → IsTable (dealt g r)
dealt-IsTable g r t =
    let six = Arranged-length g.seats t.arranged in
    let hands : List Hand = with_card (turn_hands g) (deal g.shoe r).0 in
    record {
      arranged =
          Arranged-hands g.seats g.turn hands
            (omega (
              arith,
              length-with_card (turn_hands g) (deal g.shoe r).0,
              seat_at-hand g g.turn t.arranged t.turn_within,
            ))
            t.turn_within t.arranged;
      turn_within = ground (arith, six, t.turn_within);
      once = λ v. ground (
        arith,
        count_if-set (sits v) g.seats g.turn (record (seat_at g g.turn) { hands = hands }) new_seat
            (omega (arith, six, t.turn_within)),
        sits-hands (seat_at g g.turn) v hands,
        t.once v,
      );
    }

-- Where the hand at the turn holds 22 cards or more, start() throws.
pub start_throws :
    (g : Game) (r : Rand) → IsTable g → 22 ≤ length (turn_cards (turn_hands g)) → start g r ≡ none
unfolding start
start_throws g r t filled =
    ground (
      arith,
      deal_first_lem (turn_hands g) g.shoe r (seat_at-hand g g.turn t.arranged t.turn_within),
    )

-- Where the hand at the turn holds less than 22 cards, start() returns no error and invokes the
-- callback once; that hand has the next card of the shoe behind its cards, the turn is the next
-- seat's or after the last seat the first one's, and the table is kept.
pub start_deals :
    (g : Game) (r : Rand)
    → IsTable g
    → length (turn_cards (turn_hands g)) < 22
    → (start g r ≡ some (dealt g r, none, card_dealt ∷ [], (deal g.shoe r).2)) × IsTable (dealt g r)
unfolding start
start_deals g r t room =
    let hand = seat_at-hand g g.turn t.arranged t.turn_within in
    let first = deal_first_lem (turn_hands g) g.shoe r hand in
    let shoes = deal_first_shoe (turn_hands g) g.shoe r hand in
    (ground (arith, first, shoes), dealt-IsTable g r t)
