-- ===== src/Examples/Values.antt =====
-- Runs of the class expected, on numbers of which 13 cannot be copied.
use beast_lounge.Base.{ℕ, refl, Bool, true, false, Option, none, some, ◌==◌, ==_iff, if◌then◌else◌}
use beast_lounge.Expected.{Object, copies, holding, failing, assign}
use beast_lounge.Expected.Comparison.{Compared, comparisons_lem}
use beast_lounge.Expected.Assignment.{Sound, holds, fails_with, Assigned, assign-Assigned}

abbrev copy_number : ℕ → Option ℕ
copy_number t = if t == 13 then none else some t

abbrev moved_number : ℕ → ℕ
moved_number t = 0

abbrev numbers : ℕ → Object ℕ
numbers k =
    if k == 0 then holding copy_number moved_number 22 13 else failing copy_number moved_number 22 2

numbers-Sound : (k : ℕ) → Sound copy_number moved_number 22 (numbers k)
numbers-Sound k = either (k == 0)
  where
    either :
        (b : Bool)
        → Sound copy_number moved_number 22 (
            if b
            then holding copy_number moved_number 22 13
            else failing copy_number moved_number 22 2)
    either true = holds 13 refl
    either false = fails_with 2 refl

assign-Assigned_example :
    Assigned copy_number moved_number 22 1 numbers
      (copies 0)
      (assign copy_number moved_number 22 1 (copies 0) numbers)
assign-Assigned_example =
    assign-Assigned copy_number moved_number 22 1 numbers numbers-Sound (copies 0)

comparisons_lem_example :
    Compared copy_number moved_number 22 (λ s t. s == t) (numbers 0) (numbers 1) 2
comparisons_lem_example =
    comparisons_lem copy_number moved_number 22 (λ s t. s == t) ==_iff (numbers 0) (numbers 1) 2
      (numbers-Sound 0) (numbers-Sound 1)
