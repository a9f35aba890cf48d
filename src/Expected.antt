-- ===== src/Expected.antt =====
-- The class expected<T> of include/boost/beast/_experimental/core/expected.hpp and of impl/expected.hpp
-- behind it, where an error code is a number.
pub mod Assignment
pub mod Observers
pub mod Comparison
use beast_lounge.Base.{ℕ, ◌+◌, Bool, true, false, Option, none, some, ◌==◌, if◌then◌else◌}

-- What the union holds: no object, t_ or ec_.
pub data Cell (V : Type 0) : Type 0 where
  raw : Cell V
  value : V → Cell V
  error : ℕ → Cell V

-- `has` is v_, and `lost` counts the objects T that were overwritten and never destroyed.
pub record Object (V : Type 0) : Type 0 where
  pub has : Bool
  pub cell : Cell V
  pub lost : ℕ

-- How an operation of the object ends: it returns, or an exception leaves it, or std::terminate is called,
-- since it is noexcept, or its behaviour is undefined.
pub data Ending {ℓ} (A : Type ℓ) : Type ℓ where
  done threw : A → Ending A
  terminated undefined : Ending A

abbrev pub ending {ℓ κ} : {A : Type ℓ} {B : Type κ} → (A → B) → Ending A → Ending B
ending f (done a) = done (f a)
ending f (threw a) = threw (f a)
ending f terminated = terminated
ending f undefined = undefined

-- `copy` is the copy constructor of T, which throws if it is `none`; `moved` is what is left of an
-- object whose value was moved; and `invalid` is errc::invalid_argument.
module _ {V : Type 0} (copy : V → Option V) (moved : V → V) (invalid : ℕ) where
  abbrev pub holding : V → Object V
  holding t = record { has = true; cell = value t; lost = 0 }

  abbrev pub failing : ℕ → Object V
  failing e = record { has = false; cell = error e; lost = 0 }

  -- Placement new of t_ and of ec_
  unfoldable pub place_value : V → Object V → Object V
  place_value t o = elim o.cell [
    | raw ↦ record o { cell = value t }
    | value old ↦ record o { cell = value t; lost = o.lost + 1 }
    | error old ↦ record o { cell = value t }
  ]

  unfoldable pub place_error : ℕ → Object V → Object V
  place_error e o = elim o.cell [
    | raw ↦ record o { cell = error e }
    | value old ↦ record o { cell = error e; lost = o.lost + 1 }
    | error old ↦ record o { cell = error e }
  ]

  -- destroy(), of which the behaviour is undefined unless v_ says what the union holds
  unfoldable pub destroy : Object V → Option (Object V)
  destroy o = elim o.cell [
    | raw ↦ none
    | value t ↦ if o.has then some (record o { cell = raw }) else none
    | error e ↦ if o.has then none else some (record o { cell = raw })
  ]

  -- move(other): the object and the other one
  unfoldable pub move_from : Object V → Object V → Ending (Object V × Object V)
  unfolding place_value place_error
  move_from o other = elim other.cell [
    | raw ↦ undefined
    | value t ↦
        if other.has
        then done (place_value t (record o { has = true }), record other { cell = value (moved t) })
        else undefined
    | error e ↦
        if other.has then undefined else done (place_error e (record o { has = false }), other)
  ]

  -- operator=(expected const&) behind destroy(), with its cleanup
  unfoldable pub copy_from : Object V → Object V → Ending (Object V)
  unfolding place_value place_error
  copy_from o other = elim other.cell [
    | raw ↦ undefined
    | value t ↦
        if other.has
        then elim (copy t) [
          | some t' ↦ done (record (place_value t' o) { has = true })
          | none ↦ threw (place_error invalid (record o { has = false }))
        ]
        else undefined
    | error e ↦ if other.has then undefined else done (record (place_error e o) { has = false })
  ]

  abbrev pub put : ℕ → Object V → (ℕ → Object V) → ℕ → Object V
  put i o s k = if k == i then o else s k

  -- The assignments to the object at `i`: from another expected, by move or copy, of a new T, whose
  -- construction throws if it is `none`, of a T const&, and of an error code
  unfoldable pub assign_move : ℕ → ℕ → (ℕ → Object V) → Ending (ℕ → Object V)
  unfolding destroy move_from
  assign_move i j s = elim (destroy (s i)) [
    | none ↦ undefined
    | some o ↦ let s' = put i o s in ending (λ p. put i (p.0) (put j (p.1) s')) (move_from o (s' j))
  ]

  unfoldable pub assign_copy : ℕ → ℕ → (ℕ → Object V) → Ending (ℕ → Object V)
  unfolding destroy copy_from
  assign_copy i j s = elim (destroy (s i)) [
    | none ↦ undefined
    | some o ↦ let s' = put i o s in ending (λ p. put i p s') (copy_from o (s' j))
  ]

  unfoldable pub assign_new : ℕ → Option V → (ℕ → Object V) → Ending (ℕ → Object V)
  unfolding destroy place_value
  assign_new i t s = elim (destroy (s i)) [
    | none ↦ undefined
    | some o ↦ elim t [
      | none ↦ terminated
      | some v ↦ done (put i (record (place_value v o) { has = true }) s)
    ]
  ]

  unfoldable pub assign_value : ℕ → V → (ℕ → Object V) → Ending (ℕ → Object V)
  unfolding place_value
  assign_value i t s = elim (copy t) [
    | none ↦ terminated
    | some v ↦ done (put i (record (place_value v (s i)) { has = true }) s)
  ]

  unfoldable pub assign_error : ℕ → ℕ → (ℕ → Object V) → Ending (ℕ → Object V)
  unfolding destroy place_error
  assign_error i e s = elim (destroy (s i)) [
    | none ↦ undefined
    | some o ↦ done (put i (record (place_error e o) { has = false }) s)
  ]

  pub data Assign : Type 0 where
    moves copies : ℕ → Assign
    takes : Option V → Assign
    fails : ℕ → Assign

  -- The assignments other than that of a T const&
  unfoldable pub assign : ℕ → Assign → (ℕ → Object V) → Ending (ℕ → Object V)
  unfolding assign_move assign_copy assign_new assign_error
  assign i (moves j) s = assign_move i j s
  assign i (copies j) s = assign_copy i j s
  assign i (takes t) s = assign_new i t s
  assign i (fails e) s = assign_error i e s
