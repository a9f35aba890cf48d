-- ===== src/Rpc/Extract.antt =====
-- rpc_call::extract of server/core/rpc.cpp, in its stages: each may set members of the call, and
-- sets ec and returns early or goes on.
use text.Mathlib.Text.{◌==◌ as str_eq}
use beast_lounge.Base.{Bool, true, false, ◌||◌, Option, none, some, ◌==◌, if◌then◌else◌}
use beast_lounge.Boost.{Boost, Kind, null_kind, number_kind, string_kind, array_kind, object_kind}
use beast_lounge.Rpc.{
  RpcCall, Code, expected_object, expected_string_version, unknown_version, invalid_null_id,
  expected_strnum_id, expected_id, missing_method, expected_string_method,
  expected_structured_params, missing_params, expected_array_params,
}

abbrev pub is_null : Kind → Bool
is_null null_kind = true
is_null _ = false

abbrev pub is_number : Kind → Bool
is_number number_kind = true
is_number _ = false

abbrev pub is_string : Kind → Bool
is_string string_kind = true
is_string _ = false

abbrev pub is_array : Kind → Bool
is_array array_kind = true
is_array _ = false

abbrev pub is_object : Kind → Bool
is_object object_kind = true
is_object _ = false

module _ ⦃B : Boost⦄ where
  open B use {Value, kind, as_string, find}

  -- The call and ec after a part of extract(): on an error the rest is not run.
  abbrev pub Step : Type 0
  Step = RpcCall × Option Code

  infixl 5 ◌and_then◌
  abbrev pub ◌and_then◌ : Step → (RpcCall → Step) → Step
  (c, none) and_then f = f c
  (c, some e) and_then f = (c, some e)

  -- extract id first so on error, the response can include it.
  unfoldable pub take_id : Value → RpcCall → Step
  take_id jv c = elim (find "id" jv) [
    | none ↦ (c, none)
    | some v ↦ (record c { id = some v }, none)
  ]

  -- now check the version
  unfoldable pub take_version : Value → RpcCall → Step
  take_version jv c = elim (find "jsonrpc" jv) [
    | none ↦ (record c { version = 1 }, none)
    | some v ↦
        if is_string (kind v)
        then if str_eq (as_string v) "2.0"
          then (record c { version = 2 }, none)
          else (c, some unknown_version)
        else (c, some expected_string_version)
  ]

  -- validate the extracted id
  check_id_2 : RpcCall → Option Value → Step
  check_id_2 c none = (c, none)
  check_id_2 c (some v) =
      if is_null (kind v)
      then (c, some invalid_null_id)
      else if is_number (kind v) || is_string (kind v)
      then (c, none)
      else (c, some expected_strnum_id)

  check_id_1 : RpcCall → Option Value → Step
  check_id_1 c none = (c, some expected_id)
  check_id_1 c (some v) = (c, none)

  unfoldable pub check_id : RpcCall → Step
  unfolding check_id_1 check_id_2
  check_id c = if c.version == 2 then check_id_2 c c.id else check_id_1 c c.id

  -- extract method
  unfoldable pub take_method : Value → RpcCall → Step
  take_method jv c = elim (find "method" jv) [
    | none ↦ (c, some missing_method)
    | some v ↦
        if is_string (kind v)
        then (record c { method = as_string v }, none)
        else (c, some expected_string_method)
  ]

  -- extract params
  take_params_2 : RpcCall → Option Value → Step
  take_params_2 c none = (c, none)
  take_params_2 c (some v) =
      if is_object (kind v) || is_array (kind v)
      then (record c { params = v }, none)
      else (c, some expected_structured_params)

  take_params_1 : RpcCall → Option Value → Step
  take_params_1 c none = (c, some missing_params)
  take_params_1 c (some v) =
      if is_array (kind v) then (record c { params = v }, none) else (c, some expected_array_params)

  unfoldable pub take_params : Value → RpcCall → Step
  unfolding take_params_1 take_params_2
  take_params jv c =
      if c.version == 2
      then take_params_2 c (find "params" jv)
      else take_params_1 c (find "params" jv)

  -- extract(jv, ec), with ec clear before it
  unfoldable pub extract : Value → RpcCall → Step
  extract jv c =
      if is_object (kind jv)
      then take_id jv c
        and_then take_version jv
        and_then check_id
        and_then take_method jv
        and_then take_params jv
      else (c, some expected_object)
