-- ===== src/Blackjack/Shoe/Swaps.antt =====
-- The second loop of shuffle() exchanges cards and loses none.
use beast_lounge.Base.{
  ℕ, zero, suc, ◌+◌, ◌<◌, ◌≡◌, refl, ◌∙◌, List, arith, length, length-set, get_or, set, count,
  count-set, get_or-set, ==_iff,
}
use beast_lounge.Blackjack.Shoe.{Rand, called, swap, mix}

pub length-swap : (cards : List ℕ) (i j : ℕ) → length (swap cards i j) ≡ length cards
unfolding swap
length-swap cards i j = omega (arith, length-set {0}, length-set {0})

pub count-swap :
    (c : ℕ) (cards : List ℕ) (i j : ℕ)
    → i < length cards
    → j < length cards
    → count c (swap cards i j) ≡ count c cards
unfolding swap
count-swap c cards i j hi hj = ground (
  arith,
  count-set c cards i (get_or cards j 0) hi,
  count-set c (set cards i (get_or cards j 0)) j (get_or cards i 0),
  length-set cards i (get_or cards j 0),
  get_or-set cards i j (get_or cards j 0) 0 hi,
)

pub get_or-swap :
    (cards : List ℕ) (i j : ℕ)
    → i < length cards
    → j < length cards
    → get_or (swap cards i j) j 0 ≡ get_or cards i 0
unfolding swap
get_or-swap cards i j hi hj =
    get_or-set (set cards i (get_or cards j 0)) j j (get_or cards i 0) 0
      (omega (arith, length-set cards i (get_or cards j 0)))
    ∙ rw ((==_iff j j).1 refl) refl

pub length-mix :
    (rounds i : ℕ) (cards : List ℕ) (r : Rand) → length (mix rounds i cards r).0 ≡ length cards
unfolding mix
length-mix zero i cards r = refl
length-mix (suc rounds) i cards r = length-mix rounds (suc i) _ (called r) ∙ length-swap cards i _

-- With no more rounds than positions behind i, each card stays as often as it was.
pub count-mix :
    (c rounds i : ℕ) (cards : List ℕ) (r : Rand)
    → rounds + i < length cards
    → count c (mix rounds i cards r).0 ≡ count c cards
unfolding mix
count-mix c zero i cards r h = refl
count-mix c (suc rounds) i cards r h =
    count-mix c rounds (suc i) _ (called r) (omega (arith, length-swap cards i))
    ∙ count-swap c cards i _ (omega arith) (grind arith)
