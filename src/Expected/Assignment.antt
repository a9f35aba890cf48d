-- ===== src/Expected/Assignment.antt =====
-- The assignments of the class expected of include/boost/beast/_experimental/core.
use beast_lounge.Base.{
  ℕ, ◌≡◌, refl, sym, ap, subst, ◌∙◌, ◌==◌, ==_iff, Bool, true, false, Bool-cases, inl, inr, Option,
  none, some, if◌then◌else◌,
}
use beast_lounge.Expected.{
  raw, value, error, Object, Ending, done, threw, terminated, undefined, ending, holding, failing,
  place_value, place_error, destroy, move_from, copy_from, put, assign_move, assign_copy,
  assign_new, assign_error, Assign, moves, copies, takes, fails, assign,
}

module _ {V : Type 0} (copy : V → Option V) (moved : V → V) (invalid : ℕ) where
  abbrev Store : Type 0
  Store = ℕ → Object V

  abbrev held : V → Object V
  held t = holding copy moved invalid t

  abbrev broken : ℕ → Object V
  broken e = failing copy moved invalid e

  abbrev put_at : ℕ → Object V → Store → Store
  put_at i o s = put copy moved invalid i o s

  -- v_ says what the union holds, and no T was lost.
  pub data Sound (o : Object V) : Type 0 where
    holds : (t : V) → o ≡ held t → Sound o
    fails_with : (e : ℕ) → o ≡ broken e → Sound o

  -- What is assigned.
  pub data Stored (s : Store) : Assign copy moved invalid → Object V → Type 0 where
    moved_value : (j : ℕ) (t : V) → s j ≡ held t → Stored s (moves j) (held t)
    moved_error : (j e : ℕ) → s j ≡ broken e → Stored s (moves j) (broken e)
    copied_value :
        (j : ℕ) (t t' : V) → s j ≡ held t → copy t ≡ some t' → Stored s (copies j) (held t')
    copied_error : (j e : ℕ) → s j ≡ broken e → Stored s (copies j) (broken e)
    taken : (t : V) → Stored s (takes (some t)) (held t)
    failed : (e : ℕ) → Stored s (fails e) (broken e)

  -- What the other objects are then.
  abbrev drained : Object V → Object V
  drained o = elim o.cell [ raw ↦ o | value t ↦ record o { cell = value (moved t) } | error e ↦ o ]

  abbrev rest : Assign copy moved invalid → Store → ℕ → Object V
  rest (moves j) s k = if k == j then drained (s j) else s k
  rest (copies j) s k = s k
  rest (takes t) s k = s k
  rest (fails e) s k = s k

  pub data Assigned (i : ℕ) (s : Store) : Assign copy moved invalid → Ending Store → Type 0 where
    moves_itself : Assigned i s (moves i) undefined
    copies_itself : Assigned i s (copies i) undefined
    terminates : Assigned i s (takes none) terminated
    throws :
        (j : ℕ) (t : V) (s' : Store)
        → s j ≡ held t
        → copy t ≡ none
        → s' i ≡ broken invalid
        → ((k : ℕ) → (k == i) ≡ false → s' k ≡ s k)
        → Assigned i s (copies j) (threw s')
    returns :
        (op : Assign copy moved invalid) (s' : Store)
        → Stored s op (s' i)
        → ((k : ℕ) → (k == i) ≡ false → s' k ≡ rest op s k)
        → Assigned i s op (done s')

  abbrev emptied : Bool → Object V
  emptied b = record { has = b; cell = raw; lost = 0 }

  destroyed :
      (o : Object V) → Sound o → (b : Bool) × (destroy copy moved invalid o ≡ some (emptied b))
  unfolding destroy
  destroyed o (holds t e) = (true, ap (destroy copy moved invalid) e)
  destroyed o (fails_with c e) = (false, ap (destroy copy moved invalid) e)

  here : (i : ℕ) (o : Object V) (s : Store) → put_at i o s i ≡ o
  here i o s = ap (λ t. if t then o else s i) ((==_iff i i).1 refl)

  there : (i : ℕ) (o : Object V) (s : Store) (k : ℕ) → (k == i) ≡ false → put_at i o s k ≡ s k
  there i o s k other = ap (λ t. if t then o else s k) other

  module _ (i : ℕ) (s : Store) (sound : (k : ℕ) → Sound (s k)) where
    new-Assigned : (t : Option V) → Assigned i s (takes t) (assign_new copy moved invalid i t s)
    unfolding assign_new place_value
    new-Assigned t =
        let (b, e) = destroyed (s i) (sound i) in
        subst (Assigned i s (takes t)) (sym (ap (after t) e)) (ends t b)
      where
        after : Option V → Option (Object V) → Ending Store
        after t d = elim d [
          | none ↦ undefined
          | some o ↦ elim t [
            | none ↦ terminated
            | some v ↦
                done (put_at i (record (place_value copy moved invalid v o) { has = true }) s)
          ]
        ]

        ends : (t : Option V) (b : Bool) → Assigned i s (takes t) (after t (some (emptied b)))
        ends none b = terminates
        ends (some v) b =
            returns (takes (some v)) (put_at i (held v) s)
              (subst (Stored s (takes (some v))) (sym (here i (held v) s)) (taken v))
              (λ k other. there i (held v) s k other)

    error-Assigned : (e : ℕ) → Assigned i s (fails e) (assign_error copy moved invalid i e s)
    unfolding assign_error place_error
    error-Assigned e =
        let (b, d) = destroyed (s i) (sound i) in
        subst (Assigned i s (fails e)) (sym (ap after d)) (
          returns (fails e) (put_at i (broken e) s)
            (subst (Stored s (fails e)) (sym (here i (broken e) s)) (failed e))
            (λ k other. there i (broken e) s k other))
      where
        after : Option (Object V) → Ending Store
        after d = elim d [
          | none ↦ undefined
          | some o ↦ done (put_at i (record (place_error copy moved invalid e o) { has = false }) s)
        ]

    -- The object at `j` when that at `i` is destroyed.
    source_kept : (j : ℕ) (b : Bool) → (j == i) ≡ false → put_at i (emptied b) s j ≡ s j
    source_kept j b other = there i (emptied b) s j other

    copy-Assigned : (j : ℕ) → Assigned i s (copies j) (assign_copy copy moved invalid i j s)
    unfolding assign_copy copy_from place_value place_error
    copy-Assigned j =
        let (b, d) = destroyed (s i) (sound i) in
        subst (Assigned i s (copies j)) (sym (ap after d)) (elim (Bool-cases (j == i)) [
          | inl same ↦ itself b ((==_iff j i).0 same)
          | inr other ↦ from b other (sound j)
        ])
      where
        after : Option (Object V) → Ending Store
        after d = elim d [
          | none ↦ undefined
          | some o ↦
              let s' = put_at i o s in
              ending (λ p. put_at i p s') (copy_from copy moved invalid o (s' j))
        ]

        turn : Bool → Object V → Ending Store
        turn b other =
            ending (λ p. put_at i p (put_at i (emptied b) s))
              (copy_from copy moved invalid (emptied b) other)

        itself : (b : Bool) → j ≡ i → Assigned i s (copies j) (after (some (emptied b)))
        itself b e =
            subst (λ k. Assigned i s (copies k) (turn b (put_at i (emptied b) s k))) (sym e)
              (subst (λ o. Assigned i s (copies i) (turn b o)) (sym (here i (emptied b) s))
                copies_itself)

        twice :
            (b : Bool) (o : Object V) (k : ℕ)
            → (k == i) ≡ false
            → put_at i o (put_at i (emptied b) s) k ≡ s k
        twice b o k other =
            there i o (put_at i (emptied b) s) k other ∙ there i (emptied b) s k other

        copied :
            (b : Bool) (t : V)
            → s j ≡ held t
            → (c : Option V) → copy t ≡ c
            → Assigned i s (copies j) (turn b (held t))
        copied b t e none c = rw c (
            throws j t (put_at i (broken invalid) (put_at i (emptied b) s)) e c
              (here i (broken invalid) (put_at i (emptied b) s))
              (λ k apart. twice b (broken invalid) k apart))
        copied b t e (some t') c = rw c (
            returns (copies j) (put_at i (held t') (put_at i (emptied b) s))
              (subst (Stored s (copies j)) (sym (here i (held t') (put_at i (emptied b) s)))
                (copied_value j t t' e c))
              (λ k apart. twice b (held t') k apart))

        from :
            (b : Bool)
            → (j == i) ≡ false
            → Sound (s j)
            → Assigned i s (copies j) (after (some (emptied b)))
        from b other (holds t e) =
            subst (λ o. Assigned i s (copies j) (turn b o)) (sym (source_kept j b other ∙ e))
              (copied b t e (copy t) refl)
        from b other (fails_with c e) =
            subst (λ o. Assigned i s (copies j) (turn b o)) (sym (source_kept j b other ∙ e))
              (returns (copies j) (put_at i (broken c) (put_at i (emptied b) s))
                (subst (Stored s (copies j)) (sym (here i (broken c) (put_at i (emptied b) s)))
                  (copied_error j c e))
                (λ k apart. twice b (broken c) k apart))

    move-Assigned : (j : ℕ) → Assigned i s (moves j) (assign_move copy moved invalid i j s)
    unfolding assign_move move_from place_value place_error
    move-Assigned j =
        let (b, d) = destroyed (s i) (sound i) in
        subst (Assigned i s (moves j)) (sym (ap after d)) (elim (Bool-cases (j == i)) [
          | inl same ↦ itself b ((==_iff j i).0 same)
          | inr other ↦ from b other (sound j)
        ])
      where
        both : Bool → Object V × Object V → Store
        both b p = put_at i (p.0) (put_at j (p.1) (put_at i (emptied b) s))

        after : Option (Object V) → Ending Store
        after d = elim d [
          | none ↦ undefined
          | some o ↦
              let s' = put_at i o s in
              ending (λ p. put_at i (p.0) (put_at j (p.1) s'))
                (move_from copy moved invalid o (s' j))
        ]

        turn : Bool → Object V → Ending Store
        turn b other = ending (both b) (move_from copy moved invalid (emptied b) other)

        itself : (b : Bool) → j ≡ i → Assigned i s (moves j) (after (some (emptied b)))
        itself b e =
            subst
              (λ k. Assigned i s (moves k) (
                ending (λ p. put_at i (p.0) (put_at k (p.1) (put_at i (emptied b) s)))
                  (move_from copy moved invalid (emptied b) (put_at i (emptied b) s k))))
              (sym e)
              (subst
                (λ o. Assigned i s (moves i) (
                  ending (λ p. put_at i (p.0) (put_at i (p.1) (put_at i (emptied b) s)))
                    (move_from copy moved invalid (emptied b) o)))
                (sym (here i (emptied b) s)) moves_itself)

        -- The others, where the source has become `o`.
        beside :
            (b : Bool) (t o : Object V) (k : ℕ)
            → o ≡ drained (s j)
            → (k == i) ≡ false
            → both b (t, o) k ≡ rest (moves j) s k
        beside b t o k e apart =
            there i t (put_at j o (put_at i (emptied b) s)) k apart
            ∙ ap (λ p. if k == j then o else p) (there i (emptied b) s k apart)
            ∙ ap (λ p. if k == j then p else s k) e

        from :
            (b : Bool)
            → (j == i) ≡ false
            → Sound (s j)
            → Assigned i s (moves j) (after (some (emptied b)))
        from b other (holds t e) =
            subst (λ o. Assigned i s (moves j) (turn b o)) (sym (source_kept j b other ∙ e))
              (returns (moves j) (both b (held t, held (moved t)))
                (subst (Stored s (moves j))
                  (sym (here i (held t) (put_at j (held (moved t)) (put_at i (emptied b) s))))
                  (moved_value j t e))
                (λ k apart. beside b (held t) (held (moved t)) k (sym (ap drained e)) apart))
        from b other (fails_with c e) =
            subst (λ o. Assigned i s (moves j) (turn b o)) (sym (source_kept j b other ∙ e))
              (returns (moves j) (both b (broken c, broken c))
                (subst (Stored s (moves j))
                  (sym (here i (broken c) (put_at j (broken c) (put_at i (emptied b) s))))
                  (moved_error j c e))
                (λ k apart. beside b (broken c) (broken c) k (sym (ap drained e)) apart))

    -- If each object holds what its v_ says, an assignment of another object, a new T or an error code
    -- stores what is assigned, without losing a T, and leaves the others, but for the source of a move; if
    -- the copy of a T throws, the object has the error invalid_argument; a construction of T that throws
    -- terminates. Only an assignment of an object to itself is undefined.
    pub assign-Assigned :
        (op : Assign copy moved invalid) → Assigned i s op (assign copy moved invalid i op s)
    unfolding assign
    assign-Assigned (moves j) = move-Assigned j
    assign-Assigned (copies j) = copy-Assigned j
    assign-Assigned (takes t) = new-Assigned t
    assign-Assigned (fails e) = error-Assigned e
