-- ===== src/Server/Countdown.antt =====
-- The countdown of a shutdown: when on_timer() stops the server, and that it does in the end.
use Prim.Native.Nat.{◌/◌}
use native.Mathlib.Nat.{div-add-mod', mod-lt, mul-div_cancel}
use beast_lounge.Base.{
  ℕ, ◌+◌, ◌-◌, ◌*◌, ◌≤◌, ◌<◌, ◌≡◌, refl, ap, subst, ◌∙◌, ◌⊎◌, inl, inr, Bool, true, false,
  Bool-cases, List, [], ◌∷◌, ◌++◌, arith, length, ltb, ltb→lt, ◌==◌, ==_iff, if◌then◌else◌,
}
use beast_lounge.Server.{Server, stop, pause, ceil, on_timer, shutdown}

module _ (ticks never : ℕ) where
  -- The timer is late by so much, and on_timer() runs.
  abbrev pub fire : ℕ → Server → Server
  fire late s = on_timer ticks never (s.expiry + late) s

  -- The rounds of the countdown until the server is stopped.
  unfoldable pub rounds : List ℕ → Server → Server
  rounds [] s = s
  rounds (late ∷ lates) s = let next = rounds lates (fire late s) in if s.stopped then s else next

  -- The seconds that remain when the timer expires.
  abbrev left : Server → ℕ
  left s = ceil ticks (s.shutdown_time - s.expiry)

-- What on_timer() may do to a server that is not stopped.
pub data Ticks (one now : ℕ) (s : Server) : Server → Type 0 where
  over : s.shutdown_time ≤ now → Ticks one now s (record s { stopped = true })
  announces :
      (n expiry : ℕ)
      → s.shutdown_time ≤ now + n * one
      → now + n * one < s.shutdown_time + one
      → now < expiry
      → expiry < s.shutdown_time + one
      → Ticks one now s
          (record s { announced = s.announced ++ n ∷ []; expiry = expiry; armed = true })

module _ (ticks : ℕ) (flows : 0 < ticks) where
  -- A duration rounded up to seconds.
  ceil_bounds : (d : ℕ) → (d ≤ ceil ticks d * ticks) × (ceil ticks d * ticks < d + ticks)
  unfolding ceil
  ceil_bounds d = elim (Bool-cases (ltb (d / ticks * ticks) d)) [
    | inl below ↦ rw below (grind (arith, div-add-mod' d ticks, mod-lt d flows, ltb→lt _ _ below))
    | inr exact ↦ rw exact (ground (arith, div-add-mod' d ticks, mod-lt d flows))
  ]

  ceil_seconds : (n : ℕ) → ceil ticks (n * ticks) ≡ n
  unfolding ceil
  ceil_seconds n = rw (mul-div_cancel n flows) (ground arith)

  lt_of_mul : (a b : ℕ) → a * ticks < b * ticks → a < b
  lt_of_mul a b h = elim (Bool-cases (ltb a b)) [
    | inl less ↦ ltb→lt a b less
    | inr more ↦ absurd (no_less (ground arith))
  ]
    where
      no_less : b ≤ a → ⊥
      no_less le = grind arith

  -- Rounding up a duration that is shorter by so many seconds.
  ceil-sub : (d m e : ℕ) → e + m * ticks ≤ d → ceil ticks e + m ≤ ceil ticks d
  ceil-sub d m e h =
      let bd = ceil_bounds d in
      let be = ceil_bounds e in
      let less = lt_of_mul (ceil ticks e + m) (ceil ticks d + 1) (grind arith) in omega arith

  pause_most : (n : ℕ) → pause n * ticks ≤ n * ticks
  pause_most n = elim (Bool-cases (ltb 10 n)) [
    | inl big ↦ rw big (ten n (ltb→lt 10 n big))
    | inr small ↦ rw small (omega arith)
  ]
    where
      ten : (n : ℕ) → 10 < n → 10 * ticks ≤ n * ticks
      ten n h = grind arith

  module _ (never : ℕ) where
    Ticks-if :
        {now : ℕ} {s : Server} (b : Bool) (x y : Server)
        → (b ≡ true → Ticks ticks now s x)
        → (b ≡ false → Ticks ticks now s y)
        → Ticks ticks now s (if b then x else y)
    Ticks-if true x y hx hy = hx refl
    Ticks-if false x y hx hy = hy refl

    -- on_timer() of a server that is not stopped stops it, if the time for that has come; else it
    -- announces the seconds that remain, rounded up, and the timer is set to a later time, which is
    -- less than a second behind the time of the shutdown at most.
    pub on_timer-Ticks :
        (now : ℕ) (s : Server) → s.stopped ≡ false → Ticks ticks now s (on_timer ticks never now s)
    unfolding on_timer stop
    on_timer-Ticks now s up =
        Ticks-if (n == 0) _ _ (λ none_left. stops (ceil_zero ((==_iff n 0).0 none_left)))
          (λ some_left.
            announces n (now + pause n * ticks) (omega (arith, bounds)) (last (ground arith))
              (next (ground arith)) (before (ground arith)))
      where
        n : ℕ
        n = ceil ticks (s.shutdown_time - now)

        bounds : (s.shutdown_time - now ≤ n * ticks) × (n * ticks < s.shutdown_time - now + ticks)
        bounds = ceil_bounds (s.shutdown_time - now)

        ceil_zero : n ≡ 0 → s.shutdown_time ≤ now
        ceil_zero e = grind (arith, bounds)

        stops :
            s.shutdown_time ≤ now
            → Ticks ticks now s (if s.stopped then s else record s { stopped = true })
        stops h = Ticks-if s.stopped _ _ (λ e. cc) (λ e. over h)

        last : 0 < n → now + n * ticks < s.shutdown_time + ticks
        last pos = elim (Bool-cases (ltb now s.shutdown_time)) [
          | inl before ↦ ground (arith, bounds)
          | inr after ↦ absurd (grind (arith, bounds))
        ]

        next : 0 < n → now < now + pause n * ticks
        next pos = grind arith

        before : 0 < n → now + pause n * ticks < s.shutdown_time + ticks
        before pos = ground (arith, last pos, pause_most n)

    ceil_mono : (d e : ℕ) → e ≤ d → ceil ticks e ≤ ceil ticks d
    ceil_mono d e h = omega (arith, ceil-sub d 0 e (omega arith))

    -- After a pause so many seconds less remain.
    left_after :
        (now shutdown_time : ℕ)
        → let n = ceil ticks (shutdown_time - now) in
          ceil ticks (shutdown_time - (now + pause n * ticks)) ≤ n - pause n
    left_after now t = elim (Bool-cases (ltb (now + pause n * ticks) t)) [
      | inl before ↦ omega (
        arith,
        ceil-sub (t - now) (pause n) (t - (now + pause n * ticks))
            (omega (arith, ltb→lt _ _ before)),
      )
      | inr after ↦
          let e : t - (now + pause n * ticks) ≡ 0 = ground arith in
          omega (arith, ceil_seconds 0, ap (ceil ticks) e, ceil_zero)
    ]
      where
        n : ℕ
        n = ceil ticks (t - now)

        ceil_zero : ceil ticks 0 ≡ 0
        ceil_zero = subst (λ k. ceil ticks k ≡ 0) {x = 0 * ticks} (omega arith) (ceil_seconds 0)

    rounds_stopped :
        (lates : List ℕ) (s : Server)
        → s.stopped ≡ true
        → (rounds ticks never lates s).stopped ≡ true
    unfolding rounds
    rounds_stopped [] s e = e
    rounds_stopped (late ∷ lates) s e =
        ap (λ b. (if b then s else rounds ticks never lates (fire ticks never late s)).stopped) e
        ∙ e

    -- A call of on_timer() stops the server or leaves less.
    left-on_timer :
        (now : ℕ) (s : Server)
        → s.stopped ≡ false
        → let n = ceil ticks (s.shutdown_time - now) in
          let s' = on_timer ticks never now s in
          (s'.stopped ≡ true)
          ⊎ ((s'.stopped ≡ false) × (0 < n) × (left ticks never s' ≤ n - pause n))
    unfolding on_timer stop
    left-on_timer now s up = elim (Bool-cases (n == 0)) [
      | inl none_left ↦ inl (rw (none_left, on_timer) (rw up refl))
      | inr some_left ↦
          inr (rw (some_left, on_timer) (up, ground arith, left_after now s.shutdown_time))
    ]
      where
        n : ℕ
        n = ceil ticks (s.shutdown_time - now)

    rounds_end :
        (lates : List ℕ) (j : ℕ) (s : Server)
        → s.stopped ≡ false
        → left ticks never s ≤ 10 * j
        → j < length lates
        → (rounds ticks never lates s).stopped ≡ true
    unfolding rounds
    rounds_end [] j s up most long = absurd (omega arith)
    rounds_end (late ∷ lates) j s up most long =
        ap (λ b. (if b then s else rounds ticks never lates (fire ticks never late s)).stopped) up
        ∙ elim (left-on_timer (s.expiry + late) s up) [
          | inl done ↦ rounds_stopped lates (fire ticks never late s) done
          | inr (up', some_left, less) ↦
              rounds_end lates (j - 1) (fire ticks never late s) up' (fewer some_left less)
                (omega (arith, at_most, some_left))
        ]
      where
        n : ℕ
        n = ceil ticks (s.shutdown_time - (s.expiry + late))

        at_most : n ≤ 10 * j
        at_most = omega (
          arith,
          most,
          ceil_mono (s.shutdown_time - s.expiry) (s.shutdown_time - (s.expiry + late))
              (omega arith),
        )

        fewer : {k : ℕ} → 0 < n → k ≤ n - pause n → k ≤ 10 * (j - 1)
        fewer some_left less = ground (arith, at_most)

    -- A shutdown of a server that is not stopped and has no shutdown yet comes to its end: however late
    -- the timer is each time, after one call of on_timer() for each ten seconds of the cooldown, and
    -- for the rest of them, the server is stopped.
    pub shutdown_ends :
        (now cooldown : ℕ) (lates : List ℕ) (s : Server)
        → s.expiry ≡ never
        → s.stopped ≡ false
        → cooldown ≤ 10 * length lates
        → (rounds ticks never lates (shutdown ticks never now cooldown s)).stopped ≡ true
    unfolding shutdown
    shutdown_ends now cooldown lates s fresh up enough =
        ap (λ b. (rounds ticks never lates (if b then begun else s)).stopped)
          ((==_iff s.expiry never).1 fresh)
        ∙ elim (left-on_timer now (record s { shutdown_time = now + cooldown * ticks }) up) [
          | inl done ↦ rounds_stopped lates begun done
          | inr (up', some_left, less) ↦
              rounds_end lates (length lates - 1) begun up' (fewer less)
                (omega (arith, whole, some_left))
        ]
      where
        begun : Server
        begun = on_timer ticks never now (record s { shutdown_time = now + cooldown * ticks })

        whole : ceil ticks (now + cooldown * ticks - now) ≡ cooldown
        whole =
            subst (λ d. ceil ticks d ≡ cooldown) {x = cooldown * ticks} (omega arith)
              (ceil_seconds cooldown)

        fewer :
            {k : ℕ}
            → let n = ceil ticks (now + cooldown * ticks - now) in
              k ≤ n - pause n → k ≤ 10 * (length lates - 1)
        fewer less = ground (arith, whole)
