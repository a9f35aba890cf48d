-- ===== src/Expected/Observers.antt =====
-- The constructors, observers and comparisons of the class expected, in expected.hpp and impl/expected.hpp of
-- include/boost/beast/_experimental/core.
use beast_lounge.Base.{ℕ, Bool, true, false, not, Option, none, some, ◌==◌, if◌then◌else◌}
use beast_lounge.Expected.{
  raw, value, error, Object, Ending, done, threw, terminated, undefined, ending, place_value,
  place_error, move_from,
}

module _ {V : Type 0} (copy : V → Option V) (moved : V → V) (invalid : ℕ) where
  -- Memory in which an object is constructed.
  abbrev pub fresh : Object V
  fresh = record { has = false; cell = raw; lost = 0 }

  -- expected(expected&&): the object and the other one
  unfoldable pub construct_move : Object V → Ending (Object V × Object V)
  unfolding move_from
  construct_move other = move_from copy moved invalid fresh other

  -- expected(expected const&); if the copy of T throws, there is no object
  unfoldable pub construct_copy : Object V → Ending (Option (Object V))
  unfolding place_value place_error
  construct_copy other = elim other.cell [
    | raw ↦ undefined
    | value t ↦
        if other.has
        then elim (copy t) [
          | some t' ↦ done (some (record (place_value copy moved invalid t' fresh) { has = true }))
          | none ↦ threw none
        ]
        else undefined
    | error e ↦
        if other.has
        then undefined
        else done (some (record (place_error copy moved invalid e fresh) { has = false }))
  ]

  -- expected(T&&), which moves from its argument, expected(T const&), and expected(error_code)
  unfoldable pub construct_value : V → Object V × V
  unfolding place_value
  construct_value t = (record (place_value copy moved invalid t fresh) { has = true }, moved t)

  unfoldable pub construct_const : V → Option (Object V)
  unfolding place_value
  construct_const t = elim (copy t) [
    | some t' ↦ some (record (place_value copy moved invalid t' fresh) { has = true })
    | none ↦ none
  ]

  unfoldable pub construct_error : ℕ → Object V
  unfolding place_error
  construct_error e = record (place_error copy moved invalid e fresh) { has = false }

module _ {V : Type 0} where
  -- has_value() and operator bool
  abbrev pub has_value : Object V → Bool
  has_value o = o.has

  -- operator*, which reads t_ whatever v_ says
  unfoldable pub deref : Object V → Ending V
  deref o = elim o.cell [ raw ↦ undefined | value t ↦ done t | error e ↦ undefined ]

  -- value(): `threw` is bad_expected_access
  unfoldable pub get_value : Object V → Ending (Option V)
  unfolding deref
  get_value o = if not o.has then threw none else ending some (deref o)

  -- error(), whose assertion has no effect in a release
  unfoldable pub get_error : Object V → Ending ℕ
  get_error o = elim o.cell [ raw ↦ undefined | value t ↦ undefined | error e ↦ done e ]

  -- value_or(u), of an lvalue, where `copy` is the copy constructor of T, and of an rvalue, which is
  -- moved from
  unfoldable pub value_or : (V → Option V) → V → Object V → Ending (Option V)
  unfolding deref
  value_or copy u o =
      if o.has
      then elim (deref o) [
        | done t ↦ elim (copy t) [ some t' ↦ done (some t') | none ↦ threw none ]
        | threw t ↦ threw none
        | terminated ↦ terminated
        | undefined ↦ undefined
      ]
      else done (some u)

  unfoldable pub take_value_or : (V → V) → V → Object V → Ending (V × Object V)
  unfolding deref
  take_value_or moved u o =
      if o.has
      then ending (λ t. (t, record o { cell = value (moved t) })) (deref o)
      else done (u, o)

  -- The operators == and != of two expected, and of an expected and an error code; `eq` is that of T.
  module _ (eq : V → V → Bool) where
    abbrev both : {A : Type 0} → (A → A → Bool) → Ending A → Ending A → Ending Bool
    both f (done a) (done b) = done (f a b)
    both f _ _ = undefined

    unfoldable pub equal : Object V → Object V → Ending Bool
    unfolding deref get_error
    equal lhs rhs =
        if has_value lhs
        then (if not (has_value rhs) then done false else both eq (deref lhs) (deref rhs))
        else if has_value rhs
        then done false
        else both (λ a b. a == b) (get_error lhs) (get_error rhs)

    unfoldable pub unequal : Object V → Object V → Ending Bool
    unfolding equal
    unequal lhs rhs = ending not (equal lhs rhs)

  unfoldable pub equal_error : Object V → ℕ → Ending Bool
  unfolding get_error
  equal_error lhs rhs = if has_value lhs then done false else ending (λ e. e == rhs) (get_error lhs)

  unfoldable pub error_equal : ℕ → Object V → Ending Bool
  unfolding get_error
  error_equal lhs rhs = if has_value rhs then done false else ending (λ e. lhs == e) (get_error rhs)

  unfoldable pub unequal_error : Object V → ℕ → Ending Bool
  unfolding get_error
  unequal_error lhs rhs =
      if has_value lhs then done true else ending (λ e. not (e == rhs)) (get_error lhs)

  unfoldable pub error_unequal : ℕ → Object V → Ending Bool
  unfolding get_error
  error_unequal lhs rhs =
      if has_value rhs then done true else ending (λ e. not (lhs == e)) (get_error rhs)
