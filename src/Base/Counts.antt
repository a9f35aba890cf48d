-- ===== src/Base/Counts.antt =====
-- Lists that hold every number equally often have the same length.
use mathlib.Core.List.{List, [], ◌∷◌}
use mathlib.Core.Path.{◌≡◌, refl, ap, ◌∙◌}
use mathlib.Core.Logic.{inl, inr}
use Prim.Native.Nat.{ℕ, suc, ◌+◌, ◌<◌}
use native.Mathlib.Omega.{arith}
use beast_lounge.Base.Tests.{◌==◌, ==_iff, Bool-cases, if◌then◌else◌}
use beast_lounge.Base.Lists.{length, hit, count}

-- The list without the first of that number.
without_first : ℕ → List ℕ → List ℕ
without_first a [] = []
without_first a (x ∷ xs) = let rest = without_first a xs in if a == x then xs else x ∷ rest

length-without_first :
    (a : ℕ) (xs : List ℕ) → 0 < count a xs → suc (length (without_first a xs)) ≡ length xs
unfolding count without_first
length-without_first a [] h = absurd (omega arith)
length-without_first a (x ∷ xs) h = elim (Bool-cases (a == x)) [
  | inl same ↦ rw same refl
  | inr other ↦ rw other (
      omega (
        arith,
        length-without_first a xs (omega (arith, h, ap {B = ℕ} (λ t. if t then 1 else 0) other)),
      ))
]

count-without_first :
    (a : ℕ) (xs : List ℕ) (c : ℕ)
    → 0 < count a xs
    → count c (without_first a xs) + hit c a ≡ count c xs
unfolding count without_first
count-without_first a [] c h = absurd (omega arith)
count-without_first a (x ∷ xs) c h = elim (Bool-cases (a == x)) [
  | inl same ↦ rw same (omega (arith, ap (hit c) ((==_iff a x).0 same)))
  | inr other ↦ rw other (
      omega (
        arith,
        count-without_first a xs c (omega (arith, h, ap {B = ℕ} (λ t. if t then 1 else 0) other)),
      ))
]

pub length_by_counts :
    (xs ys : List ℕ) → ((c : ℕ) → count c xs ≡ count c ys) → length xs ≡ length ys
unfolding count
length_by_counts [] [] h = refl
length_by_counts [] (y ∷ ys) h = absurd (ground (arith, h y))
length_by_counts (x ∷ xs) ys h =
    let here : 0 < count x ys = ground (arith, h x) in
    ap suc (
      length_by_counts xs (without_first x ys)
        (λ c. omega (arith, h c, count-without_first x ys c here)))
    ∙ length-without_first x ys here
