-- ===== src/Rpc.antt =====
-- server/core/rpc.hpp and server/core/rpc.cpp: JSON-RPC requests, responses and errors.
pub mod Extract
pub mod WellFormed
pub mod Checked
use Prim.Native.String.{String}
use text.Mathlib.Text.{◌==◌ as str_eq}
use beast_lounge.Base.{
  ℕ, ◌≡◌, Bool, true, false, not, ◌&&◌, ◌||◌, List, [], ◌∷◌, Option, none, some, ◌==◌,
  if◌then◌else◌,
}
use beast_lounge.Base.Int.{ℤ, pos, negsuc}
use beast_lounge.Boost.{
  Boost, Kind, null_kind, bool_kind, number_kind, string_kind, array_kind, object_kind,
}

-- rpc_code
pub data Code : Type 0 where
  parse_error invalid_request method_not_found invalid_params internal_error : Code
  expected_object expected_string_version unknown_version invalid_null_id : Code
  expected_strnum_id expected_id missing_method expected_string_method : Code
  expected_structured_params missing_params expected_array_params : Code

-- The underlying value; `negsuc n` is -(n + 1).
abbrev pub code : Code → ℤ
code parse_error = negsuc 32699
code invalid_request = negsuc 32599
code method_not_found = negsuc 32600
code invalid_params = negsuc 32601
code internal_error = negsuc 32602
code expected_object = pos 1
code expected_string_version = pos 2
code unknown_version = pos 3
code invalid_null_id = pos 4
code expected_strnum_id = pos 5
code expected_id = pos 6
code missing_method = pos 7
code expected_string_method = pos 8
code expected_structured_params = pos 9
code missing_params = pos 10
code expected_array_params = pos 11

-- rpc_error_codes::message, of a code
abbrev pub message : Code → String
message parse_error = "An error occurred on the server while parsing the JSON text."
message invalid_request = "The JSON sent is not a valid Request object"
message method_not_found = "The method does not exist or is not available"
message invalid_params = "Invalid method parameters"
message internal_error = "Internal JSON-RPC error"
message expected_object = "Expected object in JSON-RPC request"
message expected_string_version = "Expected string version in JSON-RPC request"
message unknown_version = "Uknown version in JSON-RPC request"
message invalid_null_id = "Invalid null id in JSON-RPC request"
message expected_strnum_id = "Expected string or number id in JSON-RPC request"
message expected_id = "Missing id in JSON-RPC request version 1"
message missing_method = "Missing method in JSON-RPC request"
message expected_string_method = "Expected string method in JSON-RPC request"
message expected_structured_params = "Expected structured params in JSON-RPC request version 2"
message missing_params = "Missing params in JSON-RPC request version 1"
message expected_array_params = "Expected array params in JSON-RPC request version 1"

-- rpc_error, and its constructors from a code, from a text, and from both
pub record RpcError : Type 0 where
  pub code : ℤ
  pub msg : String

abbrev pub code_error : Code → RpcError
code_error c = record { code = code c; msg = message c }

-- rpc_error()
abbrev pub default_error : RpcError
default_error = code_error internal_error

abbrev pub text_error : String → RpcError
text_error s = record { code = code invalid_params; msg = s }

abbrev pub error_of : Code → String → RpcError
error_of c s = record { code = code c; msg = s }

module _ ⦃B : Boost⦄ where
  open B use {Value, kind, as_string, find, null, string, integer, object}

  -- rpc_call
  pub record RpcCall : Type 0 where
    pub id : Option Value
    pub user : ℕ
    pub version : ℕ
    pub method : String
    pub params : Value
    pub result : Value

  -- rpc_call(u)
  unfoldable pub new_call : ℕ → RpcCall
  new_call u = record {
    id = none;
    user = u;
    version = 2;
    method = "";
    params = null;
    result = null;
  }
