-- ===== src/Base/Sums.antt =====
-- Sums over lists, and how many elements pass a test.
use Prim.Native.Nat.{ℕ, zero, suc, ◌+◌, ◌*◌, ◌≤◌, ◌<◌}
use beast_lounge.Base.Tests.{if◌then◌else◌}
use mathlib.Core.Bool.{Bool, true}
use mathlib.Core.Path.{◌≡◌, refl, ap}
use mathlib.Core.List.{List, [], ◌∷◌}
use native.Mathlib.Omega.{arith}
use beast_lounge.Base.Lists.{All, length, get_or, set}

module _ {ℓ} {A : Type ℓ} where
  -- How many elements pass a test.
  unfoldable pub count_if : (A → Bool) → List A → ℕ
  count_if p [] = 0
  count_if p (x ∷ xs) = (if p x then 1 else 0) + count_if p xs

  pub count_if-set :
      (p : A → Bool) (xs : List A) (i : ℕ) (v d : A)
      → i < length xs
      → count_if p (set xs i v) + (if p (get_or xs i d) then 1 else 0)
        ≡ count_if p xs + (if p v then 1 else 0)
  unfolding count_if
  count_if-set p [] i v d h = elim h [ ]
  count_if-set p (x ∷ xs) zero v d h = omega arith
  count_if-set p (x ∷ xs) (suc i) v d h = omega (arith, count_if-set p xs i v d (omega arith))

  pub All-set {κ} :
      (P : A → Type κ) (xs : List A) (i : ℕ) (v : A) → All P xs → P v → All P (set xs i v)
  All-set P [] i v all p = tt
  All-set P (x ∷ xs) zero v all p = (p, all.1)
  All-set P (x ∷ xs) (suc i) v all p = (all.0, All-set P xs i v all.1 p)

  pub All-get_or {κ} :
      (P : A → Type κ) (xs : List A) (i : ℕ) (d : A) → All P xs → i < length xs → P (get_or xs i d)
  All-get_or P [] i d all h = elim h [ ]
  All-get_or P (x ∷ xs) zero d all h = all.0
  All-get_or P (x ∷ xs) (suc i) d all h = All-get_or P xs i d all.1 (omega arith)

  pub count_if-pos :
      (p : A → Bool) (xs : List A) (i : ℕ) (d : A)
      → i < length xs
      → p (get_or xs i d) ≡ true
      → 0 < count_if p xs
  unfolding count_if
  count_if-pos p [] i d h e = elim h [ ]
  count_if-pos p (x ∷ xs) zero d h e = rw e (omega arith)
  count_if-pos p (x ∷ xs) (suc i) d h e = omega (arith, count_if-pos p xs i d (omega arith) e)

  -- Where at most one element passes, it stands at one place.
  pub count_if_unique :
      (p : A → Bool) (xs : List A) (i j : ℕ) (d : A)
      → count_if p xs ≤ 1
      → i < length xs
      → j < length xs
      → p (get_or xs i d) ≡ true
      → p (get_or xs j d) ≡ true
      → i ≡ j
  unfolding count_if
  count_if_unique p [] i j d most hi hj ei ej = elim hi [ ]
  count_if_unique p (x ∷ xs) zero zero d most hi hj ei ej = refl
  count_if_unique p (x ∷ xs) zero (suc j) d most hi hj ei ej =
      absurd (ground (arith, count_if-pos p xs j d (omega arith) ej))
  count_if_unique p (x ∷ xs) (suc i) zero d most hi hj ei ej =
      absurd (ground (arith, count_if-pos p xs i d (omega arith) ei))
  count_if_unique p (x ∷ xs) (suc i) (suc j) d most hi hj ei ej =
      ap suc (count_if_unique p xs i j d (omega arith) (omega arith) (omega arith) ei ej)

  -- The sum of a measure over a list.
  unfoldable pub sum_by : (A → ℕ) → List A → ℕ
  sum_by f [] = 0
  sum_by f (x ∷ xs) = f x + sum_by f xs

  pub sum_by-set :
      (f : A → ℕ) (xs : List A) (i : ℕ) (v d : A)
      → i < length xs
      → sum_by f (set xs i v) + f (get_or xs i d) ≡ sum_by f xs + f v
  unfolding sum_by
  sum_by-set f [] i v d h = elim h [ ]
  sum_by-set f (x ∷ xs) zero v d h = omega arith
  sum_by-set f (x ∷ xs) (suc i) v d h = omega (arith, sum_by-set f xs i v d (omega arith))

  pub sum_by-le :
      (f : A → ℕ) (xs : List A) (n : ℕ) → All (λ x. f x ≤ n) xs → sum_by f xs ≤ length xs * n
  unfolding sum_by
  sum_by-le f [] n all = omega arith
  sum_by-le f (x ∷ xs) n all = grind (arith, sum_by-le f xs n all.1, all.0)
