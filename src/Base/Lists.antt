-- ===== src/Base/Lists.antt =====
-- Lists measured and indexed by native numbers, under the library's names.
use Prim.Native.Nat.{ℕ, zero, suc, ◌+◌, ◌-◌, ◌≤◌, ◌<◌, min}
use beast_lounge.Base.Tests.{◌==◌, if◌then◌else◌, Bool-cases, ==_iff}
use mathlib.Core.Bool.{Bool, true, false}
use mathlib.Core.Path.{◌≡◌, refl, sym, ap, ◌∙◌}
use mathlib.Core.Logic.{◌≢◌, inl, inr}
use mathlib.Core.List.{List, [], ◌∷◌, ◌++◌, map}
use mathlib.Core.Option.{Option, none, some}
use native.Mathlib.Omega.{arith}
use native.Mathlib.Nat.{zero-add}

module _ {ℓ} {A : Type ℓ} where
  abbrev pub length : List A → ℕ
  length [] = 0
  length (x ∷ xs) = suc (length xs)

  abbrev pub get_elem? : List A → ℕ → Option A
  get_elem? [] i = none
  get_elem? (x ∷ xs) zero = some x
  get_elem? (x ∷ xs) (suc i) = get_elem? xs i

  -- A write out of bounds changes nothing.
  abbrev pub set : List A → ℕ → A → List A
  set [] i v = []
  set (x ∷ xs) zero v = v ∷ xs
  set (x ∷ xs) (suc i) v = x ∷ set xs i v

  pub length-append : (xs ys : List A) → length (xs ++ ys) ≡ length xs + length ys
  length-append [] ys = omega arith
  length-append (x ∷ xs) ys = omega (arith, length-append xs ys)

module _ {ℓ} {A : Type ℓ} where
  pub length-set : (xs : List A) (i : ℕ) (v : A) → length (set xs i v) ≡ length xs
  length-set [] i v = refl
  length-set (x ∷ xs) zero v = refl
  length-set (x ∷ xs) (suc i) v = ap suc (length-set xs i v)

  pub get_elem?-set_self :
      (xs : List A) (i : ℕ) (v : A) → i < length xs → get_elem? (set xs i v) i ≡ some v
  get_elem?-set_self [] i v h = elim h [ ]
  get_elem?-set_self (x ∷ xs) zero v h = refl
  get_elem?-set_self (x ∷ xs) (suc i) v h = get_elem?-set_self xs i v (omega arith)

  pub get_elem?-set_ne :
      (xs : List A) {i j : ℕ} (v : A) → i ≢ j → get_elem? (set xs i v) j ≡ get_elem? xs j
  get_elem?-set_ne [] v h = refl
  get_elem?-set_ne (x ∷ xs) {i = zero} {j = zero} v h = absurd (h refl)
  get_elem?-set_ne (x ∷ xs) {i = zero} {j = suc j} v h = refl
  get_elem?-set_ne (x ∷ xs) {i = suc i} {j = zero} v h = refl
  get_elem?-set_ne (x ∷ xs) {i = suc i} {j = suc j} v h = get_elem?-set_ne xs v (λ e. h (ap suc e))

module _ {ℓ} {A : Type ℓ} where
  abbrev pub get_or : List A → ℕ → A → A
  get_or [] i d = d
  get_or (x ∷ xs) zero d = x
  get_or (x ∷ xs) (suc i) d = get_or xs i d

  abbrev pub take : ℕ → List A → List A
  take zero xs = []
  take (suc n) [] = []
  take (suc n) (x ∷ xs) = x ∷ take n xs

  abbrev pub drop : ℕ → List A → List A
  drop zero xs = xs
  drop (suc n) [] = []
  drop (suc n) (x ∷ xs) = drop n xs

  abbrev pub replicate : ℕ → A → List A
  replicate zero a = []
  replicate (suc n) a = a ∷ replicate n a

  pub take-append-drop : (n : ℕ) (xs : List A) → take n xs ++ drop n xs ≡ xs
  take-append-drop zero xs = refl
  take-append-drop (suc n) [] = refl
  take-append-drop (suc n) (x ∷ xs) = rw (take-append-drop n xs)

  pub length-take : (n : ℕ) (xs : List A) → length (take n xs) ≡ min n (length xs)
  length-take zero xs = omega arith
  length-take (suc n) [] = omega arith
  length-take (suc n) (x ∷ xs) = omega (arith, length-take n xs)

  pub length-drop : (n : ℕ) (xs : List A) → length (drop n xs) ≡ length xs - n
  length-drop zero xs = omega arith
  length-drop (suc n) [] = omega arith
  length-drop (suc n) (x ∷ xs) = omega (arith, length-drop n xs)

  pub length-replicate : (n : ℕ) (a : A) → length (replicate n a) ≡ n
  length-replicate zero a = refl
  length-replicate (suc n) a = ap suc (length-replicate n a)

  pub length-map {κ} : {B : Type κ} (xs : List A) (f : A → B) → length (map f xs) ≡ length xs
  length-map [] f = refl
  length-map (x ∷ xs) f = ap suc (length-map xs f)

pub get_or-set {ℓ} :
    {A : Type ℓ} (xs : List A) (i j : ℕ) (v d : A)
    → i < length xs
    → get_or (set xs i v) j d ≡ (if i == j then v else get_or xs j d)
get_or-set [] i j v d h = elim h [ ]
get_or-set (x ∷ xs) zero zero v d h = refl
get_or-set (x ∷ xs) zero (suc j) v d h = ground arith
get_or-set (x ∷ xs) (suc i) zero v d h = ground arith
get_or-set (x ∷ xs) (suc i) (suc j) v d h = ground (arith, get_or-set xs i j v d (omega arith))

pub replicate-add {ℓ} :
    {A : Type ℓ} (m n : ℕ) (a : A) → replicate (m + n) a ≡ replicate m a ++ replicate n a
replicate-add zero n a = ap (λ k. replicate k a) (zero-add n)
replicate-add (suc m) n a =
    ap (λ k. replicate k a) {y = suc (m + n)} (omega arith) ∙ ap (λ l. a ∷ l) (replicate-add m n a)

-- How often a number stands in a list.
abbrev pub hit : ℕ → ℕ → ℕ
hit c x = if c == x then 1 else 0

unfoldable pub count : ℕ → List ℕ → ℕ
count c [] = 0
count c (x ∷ xs) = hit c x + count c xs

pub count-append : (c : ℕ) (xs ys : List ℕ) → count c (xs ++ ys) ≡ count c xs + count c ys
unfolding count
count-append c [] ys = omega arith
count-append c (x ∷ xs) ys = omega (arith, count-append c xs ys)

-- A write takes out what stood there and puts in the new value.
pub count-set :
    (c : ℕ) (xs : List ℕ) (i v : ℕ)
    → i < length xs
    → count c (set xs i v) + hit c (get_or xs i 0) ≡ count c xs + hit c v
unfolding count
count-set c [] i v h = elim h [ ]
count-set c (x ∷ xs) zero v h = omega arith
count-set c (x ∷ xs) (suc i) v h = omega (arith, count-set c xs i v (omega arith))

-- What stands in a list is counted.
pub count-get_or : (xs : List ℕ) (i : ℕ) → i < length xs → 0 < count (get_or xs i 0) xs
unfolding count
count-get_or [] i h = elim h [ ]
count-get_or (x ∷ xs) zero h = ground arith
count-get_or (x ∷ xs) (suc i) h = omega (arith, count-get_or xs i (omega arith))

pub drop-get_or {ℓ} :
    {A : Type ℓ} (xs : List A) (i : ℕ) (d : A)
    → i < length xs
    → drop i xs ≡ get_or xs i d ∷ drop (suc i) xs
drop-get_or [] i d h = elim h [ ]
drop-get_or (x ∷ xs) zero d h = refl
drop-get_or (x ∷ xs) (suc i) d h = drop-get_or xs i d (omega arith)

pub drop_all {ℓ} : {A : Type ℓ} (n : ℕ) (xs : List A) → length xs ≤ n → drop n xs ≡ []
drop_all zero [] h = refl
drop_all zero (x ∷ xs) h = absurd (omega arith)
drop_all (suc n) [] h = refl
drop_all (suc n) (x ∷ xs) h = drop_all n xs (omega arith)

-- Whether so many numbers, from the first on, all pass a test.
unfoldable pub every_from : (ℕ → Bool) → ℕ → ℕ → Bool
every_from test first zero = true
every_from test first (suc many) =
    let rest = every_from test (suc first) many in if test first then rest else false

pub every_from_lem :
    (test : ℕ → Bool) (many first c : ℕ)
    → every_from test first many ≡ true
    → first ≤ c
    → c < first + many
    → test c ≡ true
unfolding every_from
every_from_lem test zero first c all low high = absurd (omega arith)
every_from_lem test (suc many) first c all low high = elim (Bool-cases (first == c)) [
  | inl here ↦ ap test (sym ((==_iff first c).0 here)) ∙ ground arith
  | inr on ↦ every_from_lem test many (suc first) c (ground arith) (ground arith) (omega arith)
]

-- A predicate of every element.
abbrev pub All {ℓ κ} : {A : Type ℓ} → (A → Type κ) → List A → Type κ
All P [] = Unit
All P (x ∷ xs) = P x × All P xs
