-- ===== src/Lounge/Threads/Phases.antt =====
-- Where a thread stands between the changes of the two sets, and what the sets say then.
use beast_lounge.Base.{ℕ, ◌≡◌, refl, sym, ◌∙◌, Bool, true, false, ◌||◌, ◌==◌}
use beast_lounge.Boost.{Boost}
use beast_lounge.Lounge.Threads.{
  Point, at_rest, put_in, taken_out, telling_join, telling_leave, told, has_joined, has_left,
}

-- What a user is about: nothing, or one set has changed and the other has not yet.
pub data Phase : Type 0 where
  steady : Phase
  entering exiting : ℕ → Phase

abbrev pub enters : Phase → ℕ → Bool
enters steady i = false
enters (entering j) i = j == i
enters (exiting j) i = false

abbrev pub exits : Phase → ℕ → Bool
exits steady i = false
exits (entering j) i = false
exits (exiting j) i = j == i

pub true≢false : ¬ (true ≡ false)
true≢false e = cc

-- Whether the channel at `i` has the user, and the user the channel.
pub record Agree (p : Phase) (i : ℕ) (has mem : Bool) : Type 0 where
  pub same : enters p i || exits p i ≡ false → has ≡ mem
  pub only_has : enters p i ≡ true → (has ≡ true) × (mem ≡ false)
  pub only_mem : exits p i ≡ true → (has ≡ false) × (mem ≡ true)

pub Agree-moved :
    {p p' : Phase} {i : ℕ} {h m h' m' : Bool}
    → (enters p' i ≡ enters p i) × (exits p' i ≡ exits p i)
    → h' ≡ h
    → m' ≡ m
    → Agree p i h m
    → Agree p' i h' m'
Agree-moved (en, ex) hh mm a = record {
  same = λ e. hh ∙ a.same (rw (sym en, sym ex) e) ∙ sym mm;
  only_has = λ e. (hh ∙ (a.only_has (sym en ∙ e)).0, mm ∙ (a.only_has (sym en ∙ e)).1);
  only_mem = λ e. (hh ∙ (a.only_mem (sym ex ∙ e)).0, mm ∙ (a.only_mem (sym ex ∙ e)).1);
}

pub or_true : {a : Bool} (b : Bool) → a ≡ true → a || b ≡ true
or_true b e = rw e refl

pub enter :
    {i j : ℕ} {h m : Bool}
    → (j == i) ≡ true
    → h ≡ false
    → Agree steady i h m
    → Agree (entering j) i true m
enter at_i out a = record {
  same = λ e. absurd (true≢false (sym (or_true false at_i) ∙ e));
  only_has = λ e. (refl, sym (a.same refl) ∙ out);
  only_mem = λ e. absurd (true≢false (sym e));
}

pub exit :
    {i j : ℕ} {h m : Bool}
    → (j == i) ≡ true
    → h ≡ true
    → Agree steady i h m
    → Agree (exiting j) i false m
exit at_i within a = record {
  same = λ e. absurd (true≢false (sym at_i ∙ e));
  only_has = λ e. absurd (true≢false (sym e));
  only_mem = λ e. (refl, sym (a.same refl) ∙ within);
}

pub entered :
    {i j : ℕ} {h m : Bool} → (j == i) ≡ true → Agree (entering j) i h m → Agree steady i h true
entered at_i a = record {
  same = λ e. (a.only_has at_i).0;
  only_has = λ e. absurd (true≢false (sym e));
  only_mem = λ e. absurd (true≢false (sym e));
}

pub exited :
    {i j : ℕ} {h m : Bool} → (j == i) ≡ true → Agree (exiting j) i h m → Agree steady i h false
exited at_i a = record {
  same = λ e. (a.only_mem at_i).0;
  only_has = λ e. absurd (true≢false (sym e));
  only_mem = λ e. absurd (true≢false (sym e));
}

module _ ⦃B : Boost⦄ where
  open B use {Value, contains, insert, erase}

  abbrev pub phase : Point → Phase
  phase (at_rest answer) = steady
  phase (put_in i) = entering i
  phase (taken_out i) = exiting i
  phase (telling_join k i jv vs) = entering i
  phase (telling_leave k i jv vs) = exiting i
  phase (told k i) = exiting i
  phase (has_joined k) = steady
  phase (has_left k) = steady
