-- ===== src/Expected/Comparison.antt =====
-- The comparisons of the class expected tell apart what it holds.
use beast_lounge.Base.{
  ℕ, ◌≡◌, ◌↔◌, refl, sym, ap, subst, Bool, true, false, not, Option, ◌==◌, ==_iff, arith,
}
use beast_lounge.Expected.{Cell, value, error, Object, done, holding, failing}
use beast_lounge.Expected.Assignment.{Sound, holds, fails_with}
use beast_lounge.Expected.Observers.{
  equal, unequal, equal_error, error_equal, unequal_error, error_unequal,
}

module _ {V : Type 0} (copy : V → Option V) (moved : V → V) (invalid : ℕ) (eq : V → V → Bool) where
  -- All the comparisons return, and agree with whether the objects are the same.
  pub record Compared (a b : Object V) (e : ℕ) : Type 0 where
    same : Bool
    same_iff : (same ≡ true) ↔ (a ≡ b)
    by_equal : equal eq a b ≡ done same
    by_unequal : unequal eq a b ≡ done (not same)
    is_error : Bool
    is_error_iff : (is_error ≡ true) ↔ (a ≡ failing copy moved invalid e)
    by_equal_error : equal_error a e ≡ done is_error
    by_error_equal : error_equal e a ≡ done is_error
    by_unequal_error : unequal_error a e ≡ done (not is_error)
    by_error_unequal : error_unequal e a ≡ done (not is_error)

  abbrev held : V → Object V
  held t = holding copy moved invalid t

  abbrev broken : ℕ → Object V
  broken e = failing copy moved invalid e

  module _ (eq_iff : (s t : V) → (eq s t ≡ true) ↔ (s ≡ t)) where
    held_inj : {s t : V} → held s ≡ held t → s ≡ t
    held_inj {s} {t} e = of_cell (ap (λ (o : Object V). o.cell) e)
      where
        of_cell : {s t : V} → value s ≡ value t → s ≡ t
        of_cell c = cc

    broken_inj : {d e : ℕ} → broken d ≡ broken e → d ≡ e
    broken_inj {d} {e} h = of_cell (ap (λ (o : Object V). o.cell) h)
      where
        of_cell : {d e : ℕ} → ◌≡◌ {A = Cell V} (error d) (error e) → d ≡ e
        of_cell c = cc

    apart : (t : V) (e : ℕ) → held t ≡ broken e → ⊥
    apart t e h = let c : true ≡ false = ap (λ (o : Object V). o.has) h in absurd cc

    -- Equality of the contents decides that of the objects.
    same_held : (s t : V) → (eq s t ≡ true) ↔ (held s ≡ held t)
    same_held s t = (λ h. ap held ((eq_iff s t).0 h), λ h. (eq_iff s t).1 (held_inj h))

    same_broken : (d e : ℕ) → ((d == e) ≡ true) ↔ (broken d ≡ broken e)
    same_broken d e = (λ h. ap broken ((==_iff d e).0 h), λ h. (==_iff d e).1 (broken_inj h))

    swap_eq : (d e : ℕ) → (e == d) ≡ (d == e)
    swap_eq d e = ground arith

    never : {P : Type 0} → (P → ⊥) → (false ≡ true) ↔ P
    never wrong = (λ h. absurd cc, λ p. absurd (wrong p))

    -- All comparisons of sound objects return: two objects are equal if they hold equal values or equal
    -- errors, an object is equal to an error code if it holds it, from either side, and != is the
    -- contrary of ==.
    pub comparisons_lem :
        (a b : Object V) (e : ℕ)
        → Sound copy moved invalid a
        → Sound copy moved invalid b
        → Compared a b e
    unfolding equal unequal equal_error error_equal unequal_error error_unequal
    comparisons_lem a b e (holds s ha) (holds t hb) =
        subst (λ a. Compared a b e) (sym ha)
          (subst (λ b. Compared (held s) b e) (sym hb)
            record {
              same = eq s t;
              same_iff = same_held s t;
              by_equal = refl;
              by_unequal = refl;
              is_error = false;
              is_error_iff = never (apart s e);
              by_equal_error = refl;
              by_error_equal = refl;
              by_unequal_error = refl;
              by_error_unequal = refl;
            })
    comparisons_lem a b e (holds s ha) (fails_with d hb) =
        subst (λ a. Compared a b e) (sym ha)
          (subst (λ b. Compared (held s) b e) (sym hb)
            record {
              same = false;
              same_iff = never (apart s d);
              by_equal = refl;
              by_unequal = refl;
              is_error = false;
              is_error_iff = never (apart s e);
              by_equal_error = refl;
              by_error_equal = refl;
              by_unequal_error = refl;
              by_error_unequal = refl;
            })
    comparisons_lem a b e (fails_with c ha) (holds t hb) =
        subst (λ a. Compared a b e) (sym ha)
          (subst (λ b. Compared (broken c) b e) (sym hb)
            record {
              same = false;
              same_iff = never (λ h. apart t c (sym h));
              by_equal = refl;
              by_unequal = refl;
              is_error = c == e;
              is_error_iff = same_broken c e;
              by_equal_error = refl;
              by_error_equal = ap done (swap_eq c e);
              by_unequal_error = refl;
              by_error_unequal = ap (λ x. done (not x)) (swap_eq c e);
            })
    comparisons_lem a b e (fails_with c ha) (fails_with d hb) =
        subst (λ a. Compared a b e) (sym ha)
          (subst (λ b. Compared (broken c) b e) (sym hb)
            record {
              same = c == d;
              same_iff = same_broken c d;
              by_equal = refl;
              by_unequal = refl;
              is_error = c == e;
              is_error_iff = same_broken c e;
              by_equal_error = refl;
              by_error_equal = ap done (swap_eq c e);
              by_unequal_error = refl;
              by_error_unequal = ap (λ x. done (not x)) (swap_eq c e);
            })
