-- ===== src/Lounge/Farewell.antt =====
-- The destructor of class user of server/core/user.cpp, which leaves every channel.
use beast_lounge.Base.{
  ℕ, zero, suc, ◌≡◌, ◌<◌, ◌≤◌, ◌+◌, ◌⊎◌, refl, sym, ap, subst, ◌∙◌, Bool, true, false, Bool-cases,
  inl, inr, ◌&&◌, ◌==◌, ==_iff, List, [], ◌∷◌, Option, none, some, Option-cases, if◌then◌else◌,
  length, hit, count, length_by_counts, arith,
}
use beast_lounge.Boost.{Boost}
use beast_lounge.Lounge.{Channel, Lounge, at}
use beast_lounge.Lounge.Members.{erase_user}
use beast_lounge.Lounge.Links.{has_user, Linked}
use beast_lounge.Lounge.Membership.{erase_user-Linked, erase_user_sets}

abbrev one_if : Bool → ℕ
one_if b = if b then 1 else 0

-- The element before end(), if there is one.
abbrev pub last : List ℕ → Option ℕ
last [] = none
last (x ∷ []) = some x
last (x ∷ y ∷ xs) = last (y ∷ xs)

some_inj : (x a : ℕ) → some x ≡ some a → x ≡ a
some_inj x a e = cc

last_counted : (xs : List ℕ) (a : ℕ) → last xs ≡ some a → 0 < count a xs
unfolding count
last_counted [] a e = absurd cc
last_counted (x ∷ []) a e = ground (arith, some_inj x a e)
last_counted (x ∷ y ∷ xs) a e = omega (arith, last_counted (y ∷ xs) a e)

hit_other : (a c : ℕ) → (a == c) ≡ false → hit c a ≡ 0
hit_other a c other = ground (arith, other)

flag_down : (b : Bool) → one_if b ≡ 0 → b ≡ false
flag_down true e = absurd (omega (arith, e))
flag_down false e = refl

flag_up : (b : Bool) → 0 < one_if b → b ≡ true
flag_up true h = refl
flag_up false h = absurd (omega (arith, h))

last_none : (xs : List ℕ) → last xs ≡ none → xs ≡ []
last_none [] e = refl
last_none (x ∷ []) e = absurd cc
last_none (x ∷ y ∷ xs) e = let none_here = last_none (y ∷ xs) e in absurd cc

module _ ⦃B : Boost⦄ where
  open B use {FlatSet, contains, erase, elements, count-elements}

  -- The loop of ~user(), where a channel is known by its cid: `none` is a pointer to no channel, or that
  -- the fuel is out before the set is empty.
  unfoldable pub leave_all : ℕ → ℕ → Lounge → Option Lounge
  unfolding erase_user
  leave_all zero u s = elim (last (elements (s.users u).channels)) [
    | none ↦ some s
    | some cid ↦ none
  ]
  leave_all (suc fuel) u s = elim (last (elements (s.users u).channels)) [
    | none ↦ some s
    | some cid ↦ elim (at cid s) [ none ↦ none | some c ↦ leave_all fuel u (erase_user c u s).0 ]
  ]

  -- ~user(): the loop has as much fuel as there are channels in the set.
  unfoldable pub destroy_user : ℕ → Lounge → Option Lounge
  unfolding leave_all
  destroy_user u s = leave_all (length (elements (s.users u).channels)) u s

  -- The user `u` is in no channel, on neither side.
  pub record Left (u : ℕ) (s s' : Lounge) : Type 0 where
    pub still_linked : Linked s'
    pub no_channel : (i : ℕ) → contains i (s'.users u).channels ≡ false
    pub no_member : (i : ℕ) → has_user u (at i s') ≡ false
    pub others :
        (i v : ℕ)
        → (v == u) ≡ false
        → contains i (s'.users v).channels ≡ contains i (s.users v).channels

  contains_none : (f : FlatSet) → last (elements f) ≡ none → (i : ℕ) → contains i f ≡ false
  unfolding count
  contains_none f e i =
      flag_down (contains i f) (sym (count-elements i f) ∙ ap (count i) (last_none (elements f) e))

  contains_last : (f : FlatSet) (a : ℕ) → last (elements f) ≡ some a → contains a f ≡ true
  contains_last f a e =
      flag_up (contains a f)
        (subst (λ n. 0 < n) (count-elements a f) (last_counted (elements f) a e))

  -- The set gets shorter by one.
  length-elements :
      (f g : FlatSet) (a : ℕ)
      → contains a f ≡ true
      → ((i : ℕ) → contains i g ≡ (if a == i then false else contains i f))
      → suc (length (elements g)) ≡ length (elements f)
  unfolding count
  length-elements f g a here less =
      length_by_counts (a ∷ elements g) (elements f) (λ c. counts c (Bool-cases (a == c)))
    where
      counts :
          (c : ℕ)
          → ((a == c) ≡ true) ⊎ ((a == c) ≡ false)
          → hit c a + count c (elements g) ≡ count c (elements f)
      counts c (inl same) =
          let e = (==_iff a c).0 same in
          omega (
            arith,
            count-elements c g
                ∙ ap one_if (less c ∙ ap (λ b. if b then false else contains c f) same),
            count-elements c f ∙ ap one_if (ap (λ k. contains k f) (sym e) ∙ here),
            ap one_if ((==_iff c a).1 (sym e)),
          )
      counts c (inr other) =
          let e = less c ∙ ap (λ b. if b then false else contains c f) other in
          omega (arith, count-elements c g ∙ ap one_if e, count-elements c f, hit_other a c other)

  find_joined :
      (s : Lounge) (u cid : ℕ)
      → Linked s
      → contains cid (s.users u).channels ≡ true
      → (c : Channel) × (at cid s ≡ some c) × (c.cid ≡ cid) × (contains u c.users ≡ true)
  find_joined s u cid l here = elim (Option-cases (at cid s)) [
    | inl none_there ↦ let e = sym (ap (has_user u) none_there) ∙ l.links cid u ∙ here in absurd cc
    | inr (c, there) ↦
        (c, there, l.cids cid c there, sym (ap (has_user u) there) ∙ l.links cid u ∙ here)
  ]

  done-Left :
      (s : Lounge) (u : ℕ) → Linked s → last (elements (s.users u).channels) ≡ none → Left u s s
  done-Left s u l e =
      let none_in = contains_none (s.users u).channels e in
      record {
        still_linked = l;
        no_channel = none_in;
        no_member = λ i. l.links i u ∙ none_in i;
        others = λ i v h. refl;
      }

  last_long : (xs : List ℕ) (a : ℕ) → last xs ≡ some a → 0 < length xs
  last_long [] a e = absurd cc
  last_long (x ∷ xs) a e = omega arith

  -- One turn of the loop: the user leaves the channel `c`, and the set gets shorter.
  module _ (u cid : ℕ) (s : Lounge) (c : Channel) where
    turn_sets :
        c.cid ≡ cid
        → contains u c.users ≡ true
        → (i : ℕ)
        → contains i ((erase_user c u s).0.users u).channels
          ≡ (if cid == i then false else contains i (s.users u).channels)
    turn_sets same member i =
        erase_user_sets c u s member i u
        ∙ ap (λ b. if b && (c.cid == i) then false else contains i (s.users u).channels)
            ((==_iff u u).1 refl)
        ∙ ap (λ k. if k == i then false else contains i (s.users u).channels) same

    turn-Left :
        (s' : Lounge) → contains u c.users ≡ true → Left u (erase_user c u s).0 s' → Left u s s'
    turn-Left s' member left = record {
      still_linked = left.still_linked;
      no_channel = left.no_channel;
      no_member = left.no_member;
      others = λ i v h.
          left.others i v h
          ∙ erase_user_sets c u s member i v
          ∙ ap (λ b. if b && (c.cid == i) then false else contains i (s.users v).channels) h;
    }

  leave_all-Left :
      (fuel u : ℕ) (s : Lounge)
      → Linked s
      → length (elements (s.users u).channels) ≤ fuel
      → (s' : Lounge) × (leave_all fuel u s ≡ some s') × Left u s s'
  unfolding leave_all
  leave_all-Left zero u s l enough = elim (Option-cases (last (elements (s.users u).channels))) [
    | inl e ↦ (
      s,
      ap {B = Option Lounge} (λ o. elim o [ none ↦ some s | some cid ↦ none ]) e,
      done-Left s u l e,
    )
    | inr (cid, e) ↦ absurd (omega (arith, enough, last_long (elements (s.users u).channels) cid e))
  ]
  leave_all-Left (suc fuel) u s l enough =
      elim (Option-cases (last (elements (s.users u).channels))) [
        | inl e ↦ (s, ap next e, done-Left s u l e)
        | inr (cid, e) ↦
            let here = contains_last (s.users u).channels cid e in
            let (c, there, same, member) = find_joined s u cid l here in
            let s₁ : Lounge = (erase_user c u s).0 in
            let l₁ = (erase_user-Linked c u s l (ap (λ k. at k s) same ∙ there)).0 in
            let shorter =
              length-elements (s.users u).channels (s₁.users u).channels cid here
                (turn_sets u cid s c same member) in
            let (s', e', left) = leave_all-Left fuel u s₁ l₁ (omega (arith, shorter, enough)) in
            (s', ap next e ∙ ap at_channel there ∙ e', turn-Left u cid s c s' member left)
      ]
    where
      at_channel : Option Channel → Option Lounge
      at_channel o = elim o [ none ↦ none | some c ↦ leave_all fuel u (erase_user c u s).0 ]

      next : Option ℕ → Option Lounge
      next o = elim o [ none ↦ some s | some cid ↦ at_channel (at cid s) ]

  -- If the channels and the users agree on who is where, the destructor of a user ends, within as many
  -- turns as the user has channels, and follows no pointer to a channel that is not there. Then the
  -- user is in no channel, on neither side, and the channels of the others are what they were.
  pub destroy_user_lem :
      (u : ℕ) (s : Lounge) → Linked s → (s' : Lounge) × (destroy_user u s ≡ some s') × Left u s s'
  unfolding destroy_user
  destroy_user_lem u s l =
      leave_all-Left (length (elements (s.users u).channels)) u s l (omega arith)
