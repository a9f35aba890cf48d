-- ===== src/Lounge/Refusals.antt =====
-- Requests that the server can only refuse.
use beast_lounge.Base.{ℕ, ◌≡◌, refl, ap, true, none}
use beast_lounge.Boost.{Boost, array_kind}
use beast_lounge.Rpc.{RpcCall, text_error, new_call}
use beast_lounge.Rpc.Extract.{extract}
use beast_lounge.Rpc.WellFormed.{extract-version_1}
use beast_lounge.Rpc.Checked.{thrown, checked_value, checked_object}
use beast_lounge.Lounge.{Lounge, lift, ◌>>=◌}
use beast_lounge.Lounge.Dispatch.{dispatch, complete_error, caught, on_message}

module _ ⦃B : Boost⦄ where
  open B use {Value, kind, find}

  -- Parameters that are no object have no "cid".
  dispatch_array :
      (rpc : RpcCall) (s : Lounge)
      → kind rpc.params ≡ array_kind
      → dispatch rpc s ≡ (thrown (text_error "expected object"), s)
  unfolding dispatch lift ◌>>=◌ checked_value checked_object
  dispatch_array rpc s e = rw e refl

  -- A value that extract() accepts as a request of version 1.0, as it has no "jsonrpc", is answered
  -- with the error "expected object", and reaches no channel.
  pub on_message_version_1 :
      (u : ℕ) (jv : Value) (s : Lounge)
      → find "jsonrpc" jv ≡ none
      → (extract jv (new_call u)).1 ≡ none
      → on_message u jv s
        ≡ (true, complete_error (extract jv (new_call u)).0 (text_error "expected object") s)
  unfolding on_message caught
  on_message_version_1 u jv s e ok =
      rw (ok, on_message)
        (ap (caught (extract jv (new_call u)).0)
          (dispatch_array (extract jv (new_call u)).0 s (extract-version_1 jv u ok e)))
