-- ===== src/Listener/Tracked.antt =====
-- What is known of each session of server/core/listener.cpp.
use beast_lounge.Base.{
  ℕ, ◌≤◌, ◌<◌, ◌≡◌, inl, inr, refl, ap, ◌∙◌, Bool, true, false, Bool-cases, count, ◌==◌, ==_iff,
  ◌&&◌, ◌||◌, not, if◌then◌else◌, arith,
}
use beast_lounge.Boost.{Boost}
use beast_lounge.Listener.{SessionKind, Listener, launch, release_session}

module _ ⦃B : Boost⦄ where
  -- What holds of an address: no session was constructed there; or a session lives, and is registered
  -- or was told to stop once; or it is destroyed.
  pub data Tracked (s : Listener) (p : ℕ) : Type 0 where
    unborn :
        s.next ≤ p
        → s.alive p ≡ false
        → B.contains p s.sessions ≡ false
        → count p s.stops ≡ 0
        → Tracked s p
    registered :
        p < s.next
        → s.alive p ≡ true
        → B.contains p s.sessions ≡ true
        → count p s.stops ≡ 0
        → Tracked s p
    told :
        p < s.next
        → s.alive p ≡ true
        → B.contains p s.sessions ≡ false
        → count p s.stops ≡ 1
        → Tracked s p
    gone :
        p < s.next
        → s.alive p ≡ false
        → B.contains p s.sessions ≡ false
        → count p s.stops ≤ 1
        → Tracked s p

  pub if-true {ℓ} : {A : Type ℓ} (b : Bool) (x y : A) → b ≡ true → (if b then x else y) ≡ x
  if-true b x y e = ap (λ t. if t then x else y) e

  pub if-false {ℓ} : {A : Type ℓ} (b : Bool) (x y : A) → b ≡ false → (if b then x else y) ≡ y
  if-false b x y e = ap (λ t. if t then x else y) e

  pub contains_other :
      (p q : ℕ) (f : B.FlatSet) → (p == q) ≡ false → B.contains p (B.insert q f) ≡ B.contains p f
  contains_other p q f other = B.contains-insert p q f ∙ ap (λ t. t || B.contains p f) other

  -- An operation that leaves what is known of an address.
  pub same-Tracked :
      (s s' : Listener) (p : ℕ)
      → s.next ≤ s'.next
      → (s.next ≤ p → s'.next ≤ p)
      → s'.alive p ≡ s.alive p
      → B.contains p s'.sessions ≡ B.contains p s.sessions
      → count p s'.stops ≡ count p s.stops
      → Tracked s p
      → Tracked s' p
  same-Tracked s s' p more new a c n (unborn low x y z) = unborn (new low) (a ∙ x) (c ∙ y) (n ∙ z)
  same-Tracked s s' p more new a c n (registered low x y z) =
      registered (omega (arith, more)) (a ∙ x) (c ∙ y) (n ∙ z)
  same-Tracked s s' p more new a c n (told low x y z) =
      told (omega (arith, more)) (a ∙ x) (c ∙ y) (n ∙ z)
  same-Tracked s s' p more new a c n (gone low x y z) =
      gone (omega (arith, more)) (a ∙ x) (c ∙ y) (omega (arith, n))

  -- The address that launch() takes has had no session.
  pub at_next : (s : Listener) (p : ℕ) → p ≡ s.next → Tracked s p → count p s.stops ≡ 0
  at_next s p e (unborn low x y z) = z
  at_next s p e (registered low x y z) = absurd (omega (arith, e))
  at_next s p e (told low x y z) = absurd (omega (arith, e))
  at_next s p e (gone low x y z) = absurd (omega (arith, e))

  pub launch-Tracked :
      (k : SessionKind) (s : Listener) (p : ℕ) → Tracked s p → Tracked (launch k s) p
  unfolding launch
  launch-Tracked k s p h = elim (Bool-cases (p == s.next)) [
    | inl same ↦
        let e = (==_iff p s.next).0 same in
        registered (omega (arith, e)) (if-true _ true (s.alive p) same)
          (B.contains-insert p s.next s.sessions ∙ ap (λ t. t || B.contains p s.sessions) same)
          (at_next s p e h)
    | inr other ↦
        same-Tracked s _ p (omega arith) (λ low. ground (arith, other))
          (if-false _ true (s.alive p) other) (contains_other p s.next s.sessions other) refl h
  ]

  -- A session that is destroyed, or an address without one.
  pub dead-Tracked :
      (s s' : Listener) (p : ℕ)
      → s'.next ≡ s.next
      → s'.alive p ≡ false
      → B.contains p s'.sessions ≡ false
      → s'.stops ≡ s.stops
      → Tracked s p
      → Tracked s' p
  dead-Tracked s s' p next a c n (unborn low x y z) =
      unborn (omega (arith, next)) a c (ap (count p) n ∙ z)
  dead-Tracked s s' p next a c n (registered low x y z) =
      gone (omega (arith, next)) a c (omega (arith, ap (count p) n, z))
  dead-Tracked s s' p next a c n (told low x y z) =
      gone (omega (arith, next)) a c (omega (arith, ap (count p) n, z))
  dead-Tracked s s' p next a c n (gone low x y z) =
      gone (omega (arith, next)) a c (omega (arith, ap (count p) n))

  pub release-Tracked :
      (q : ℕ) (s : Listener) (p : ℕ) → Tracked s p → Tracked (release_session q s) p
  unfolding release_session
  release-Tracked q s p h = elim (Bool-cases (p == q)) [
    | inl same ↦
        dead-Tracked s _ p refl (if-true _ false (s.alive p) same)
          (B.contains-erase p q s.sessions ∙ ap (λ t. not t && B.contains p s.sessions) same) refl h
    | inr other ↦
        same-Tracked s _ p (omega arith) (λ low. low) (if-false _ false (s.alive p) other)
          (B.contains-erase p q s.sessions ∙ ap (λ t. not t && B.contains p s.sessions) other) refl
          h
  ]
