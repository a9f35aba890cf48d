-- ===== src/Listener/Stops.antt =====
-- Which sessions of server/core/listener.cpp are told to stop.
use beast_lounge.Base.{
  ℕ, ◌+◌, ◌≤◌, ◌≡◌, ◌⊎◌, inl, inr, refl, sym, ap, ◌∙◌, Bool, true, false, Bool-cases, Option, none,
  some, List, [], ◌∷◌, hit, count, count-append, ◌==◌, ==_iff, if◌then◌else◌, arith,
}
use beast_lounge.Boost.{Boost}
use beast_lounge.Http.Session.{IoError}
use beast_lounge.Listener.{
  Listener, new_listener, locked, do_stop, on_accept, on_detect, on_start, ListenerEvent, starts,
  stops_all, accepts, detects, upgrades, ends, step, steps,
}
use beast_lounge.Listener.Tracked.{
  Tracked, unborn, registered, told, gone, if-true, if-false, same-Tracked, launch-Tracked,
  release-Tracked,
}

module _ ⦃B : Boost⦄ where
  count-locked :
      (alive : ℕ → Bool) (p : ℕ) (ps : List ℕ)
      → count p (locked alive ps) ≡ (if alive p then count p ps else 0)
  unfolding locked count
  count-locked alive p [] = ground arith
  count-locked alive p (q ∷ ps) = elim (Bool-cases (alive q)) [
    | inl here ↦
        ap (count p) (if-true (alive q) (q ∷ locked alive ps) _ here) ∙ elim (Bool-cases (p == q)) [
          | inl same ↦
              let living = ap alive ((==_iff p q).0 same) ∙ here in
              ap (λ n. hit p q + n) (count-locked alive p ps ∙ if-true _ _ _ living)
              ∙ sym (if-true (alive p) (hit p q + count p ps) 0 living)
          | inr other ↦
              omega (arith, hit_other other, count-locked alive p ps)
              ∙ ap (λ n. if alive p then n else 0) {x = count p ps} (omega (arith, hit_other other))
        ]
    | inr dead ↦
        ap (count p) (if-false (alive q) (q ∷ locked alive ps) _ dead)
        ∙ count-locked alive p ps
        ∙ elim (Bool-cases (p == q)) [
          | inl same ↦
              let lost = ap alive ((==_iff p q).0 same) ∙ dead in
              if-false (alive p) (count p ps) 0 lost
              ∙ sym (if-false (alive p) (hit p q + count p ps) 0 lost)
          | inr other ↦ ap (λ n. if alive p then n else 0) (omega (arith, hit_other other))
        ]
  ]
    where
      hit_other : (p == q) ≡ false → hit p q ≡ 0
      hit_other other = ap (λ t. if t then 1 else 0) other

  -- What do_stop() adds to the calls of on_stop().
  added : (s : Listener) (p : ℕ) → ℕ
  added s p = if s.alive p then (if B.contains p s.sessions then 1 else 0) else 0

  module _ (s : Listener) (p : ℕ) where
    added_dead : s.alive p ≡ false → added s p ≡ 0
    unfolding added
    added_dead x = if-false (s.alive p) _ 0 x

    added_registered : s.alive p ≡ true → B.contains p s.sessions ≡ true → added s p ≡ 1
    unfolding added
    added_registered x y = if-true (s.alive p) _ 0 x ∙ ap {B = ℕ} (λ t. if t then 1 else 0) y

    added_told : s.alive p ≡ true → B.contains p s.sessions ≡ false → added s p ≡ 0
    unfolding added
    added_told x y = if-true (s.alive p) _ 0 x ∙ ap {B = ℕ} (λ t. if t then 1 else 0) y

  count-do_stop : (s : Listener) (p : ℕ) → count p (do_stop s).stops ≡ count p s.stops + added s p
  unfolding do_stop added
  count-do_stop s p =
      count-append p s.stops _
      ∙ ap (λ n. count p s.stops + n)
          (count-locked s.alive p (B.elements s.sessions)
            ∙ ap (λ n. if s.alive p then n else 0) (B.count-elements p s.sessions))

  do_stop-Tracked : (s : Listener) (p : ℕ) → Tracked s p → Tracked (do_stop s) p
  unfolding do_stop
  do_stop-Tracked s p (unborn low x y z) =
      unborn low x (B.contains-empty p) (count-do_stop s p ∙ omega (arith, z, added_dead s p x))
  do_stop-Tracked s p (registered low x y z) =
      told low x (B.contains-empty p)
        (count-do_stop s p ∙ omega (arith, z, added_registered s p x y))
  do_stop-Tracked s p (told low x y z) =
      told low x (B.contains-empty p) (count-do_stop s p ∙ omega (arith, z, added_told s p x y))
  do_stop-Tracked s p (gone low x y z) =
      gone low x (B.contains-empty p) (omega (arith, z, count-do_stop s p, added_dead s p x))

  if-Tracked :
      (b : Bool) {s s' : Listener} {p : ℕ}
      → Tracked s p
      → Tracked s' p
      → Tracked (if b then s else s') p
  if-Tracked true h h' = h
  if-Tracked false h h' = h'

  accept-Tracked :
      (ec : Option IoError) (s : Listener) (p : ℕ) → Tracked s p → Tracked (on_accept ec s) p
  unfolding on_accept
  accept-Tracked (some e) s p h = same-Tracked s _ p (omega arith) (λ low. low) refl refl refl h
  accept-Tracked none s p h = if-Tracked s.is_open (waits (launch-Tracked _ s p h)) h
    where
      waits : {s' : Listener} → Tracked s' p → Tracked (record s' { accepting = true }) p
      waits {s' = s'} h' = same-Tracked s' _ p (omega arith) (λ low. low) refl refl refl h'

  detect-Tracked :
      (q : ℕ) (ec : Option IoError) (is_tls : Bool) (s : Listener) (p : ℕ)
      → Tracked s p
      → Tracked (on_detect q ec is_tls s) p
  unfolding on_detect
  detect-Tracked q (some e) is_tls s p h =
      release-Tracked q _ p (same-Tracked s _ p (omega arith) (λ low. low) refl refl refl h)
  detect-Tracked q none is_tls s p h = release-Tracked q _ p (launch-Tracked _ s p h)

  step-Tracked : (s : Listener) (e : ListenerEvent) (p : ℕ) → Tracked s p → Tracked (step s e) p
  unfolding step on_start
  step-Tracked s starts p h = same-Tracked s _ p (omega arith) (λ low. low) refl refl refl h
  step-Tracked s stops_all p h = do_stop-Tracked s p h
  step-Tracked s (accepts ec) p h =
      if-Tracked s.accepting
        (accept-Tracked ec _ p (same-Tracked s _ p (omega arith) (λ low. low) refl refl refl h)) h
  step-Tracked s (detects q ec is_tls) p h =
      if-Tracked (s.alive q) (detect-Tracked q ec is_tls s p h) h
  step-Tracked s (upgrades q) p h =
      if-Tracked (s.alive q) (release-Tracked q _ p (launch-Tracked _ s p h)) h
  step-Tracked s (ends q) p h = release-Tracked q s p h

  steps_from :
      (es : List ListenerEvent) (s : Listener) (p : ℕ) → Tracked s p → Tracked (steps es s) p
  unfolding steps
  steps_from [] s p h = h
  steps_from (e ∷ es) s p h = steps_from es (step s e) p (step-Tracked s e p h)

  steps-Tracked : (es : List ListenerEvent) (p : ℕ) → Tracked (steps es new_listener) p
  unfolding count
  steps-Tracked es p =
      steps_from es new_listener p (unborn (omega arith) refl (B.contains-empty p) refl)

  -- After do_stop().
  stopped_once :
      (s : Listener) (p : ℕ)
      → Tracked s p
      → ((s.alive p ≡ true) × (count p (do_stop s).stops ≡ 1))
        ⊎ ((s.alive p ≡ false) × (count p (do_stop s).stops ≤ 1))
  unfolding do_stop
  stopped_once s p h = cases (do_stop-Tracked s p h)
    where
      cases :
          Tracked (do_stop s) p
          → ((s.alive p ≡ true) × (count p (do_stop s).stops ≡ 1))
            ⊎ ((s.alive p ≡ false) × (count p (do_stop s).stops ≤ 1))
      cases (unborn low x y z) = inr (x, omega (arith, z))
      cases (registered low x y z) =
          let e : false ≡ true = sym (B.contains-empty p) ∙ y in absurd cc
      cases (told low x y z) = inl (x, z)
      cases (gone low x y z) = inr (x, z)

  -- Whatever happened to a new listener: when do_stop() is called, each session that lives, of any class,
  -- has been told to stop once then, and no session more than once.
  pub do_stop_lem :
      (es : List ListenerEvent) (p : ℕ)
      → let s = steps es new_listener in
        ((s.alive p ≡ true) × (count p (do_stop s).stops ≡ 1))
        ⊎ ((s.alive p ≡ false) × (count p (do_stop s).stops ≤ 1))
  do_stop_lem es p = stopped_once (steps es new_listener) p (steps-Tracked es p)
