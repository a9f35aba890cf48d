-- ===== src/Rpc/Checked.antt =====
-- Exceptions, and the checked_ functions of server/core/rpc.cpp. A function that returns a reference
-- into its argument returns the value.
use Prim.Native.String.{String, ◌++◌}
use beast_lounge.Base.{Bool, true, false, none, some, if◌then◌else◌}
use beast_lounge.Boost.{Boost, Kind, bool_kind}
use beast_lounge.Rpc.{RpcError, text_error}
use beast_lounge.Rpc.Extract.{is_null, is_number, is_string, is_array, is_object}

-- How a call ends: it returns, throws an rpc_error, or throws another exception.
pub data Outcome {ℓ} (A : Type ℓ) : Type ℓ where
  returned : A → Outcome A
  thrown : RpcError → Outcome A
  escaped : Outcome A

infixl 5 ◌>>=◌ ◌>>◌
abbrev pub ◌>>=◌ {ℓ κ} : {A : Type ℓ} {B : Type κ} → Outcome A → (A → Outcome B) → Outcome B
returned a >>= f = f a
thrown e >>= f = thrown e
escaped >>= f = escaped

abbrev pub ◌>>◌ {ℓ κ} : {A : Type ℓ} {B : Type κ} → Outcome A → Outcome B → Outcome B
m >> k = m >>= λ _. k

abbrev is_bool : Kind → Bool
is_bool bool_kind = true
is_bool _ = false

module _ ⦃B : Boost⦄ where
  open B use {Value, kind, as_string, find}

  unfoldable pub checked_object : Value → Outcome Value
  checked_object jv =
      if is_object (kind jv) then returned jv else thrown (text_error "expected object")

  unfoldable pub checked_array : Value → Outcome Value
  checked_array jv =
      if is_array (kind jv) then returned jv else thrown (text_error "expected array")

  unfoldable pub checked_string : Value → Outcome String
  checked_string jv =
      if is_string (kind jv) then returned (as_string jv) else thrown (text_error "expected string")

  unfoldable pub checked_bool : Value → Outcome Value
  checked_bool jv = if is_bool (kind jv) then returned jv else thrown (text_error "expected bool")

  unfoldable pub checked_null : Value → Outcome (Unit {0})
  checked_null jv = if is_null (kind jv) then returned tt else thrown (text_error "expected null")

  -- checked_value(jv, key)
  unfoldable pub checked_value : Value → String → Outcome Value
  unfolding checked_object
  checked_value jv key = do
    obj ← checked_object jv
    elim (find key obj) [
      | none ↦ thrown (text_error ("key '" ++ key ++ "' not found"))
      | some v ↦ returned v
    ]

  -- checked_string(jv, key)
  unfoldable pub checked_string_at : Value → String → Outcome String
  unfolding checked_value checked_string
  checked_string_at jv key = do v ← checked_value jv key; checked_string v

  -- The same of the other kinds: checked_object(jv, key), checked_array(jv, key), checked_bool(jv,
  -- key) and checked_null(jv, key).
  abbrev pub checked_object_at : Value → String → Outcome Value
  checked_object_at jv key = do v ← checked_value jv key; checked_object v

  abbrev pub checked_array_at : Value → String → Outcome Value
  checked_array_at jv key = do v ← checked_value jv key; checked_array v

  abbrev pub checked_bool_at : Value → String → Outcome Value
  checked_bool_at jv key = do v ← checked_value jv key; checked_bool v

  abbrev pub checked_null_at : Value → String → Outcome (Unit {0})
  checked_null_at jv key = do v ← checked_value jv key; checked_null v

  -- checked_uint64(jv) and checked_uint64(jv, key): the reference is into a value of any number kind.
  abbrev pub checked_uint64 : Value → Outcome Value
  checked_uint64 jv =
      if is_number (kind jv) then returned jv else thrown (text_error "expected number")

  abbrev pub checked_uint64_at : Value → String → Outcome Value
  checked_uint64_at jv key = do v ← checked_value jv key; checked_uint64 v
