-- ===== src/Lounge/Dispatch.antt =====
-- From a message to the handler of its channel: operator() of server/core/ws_user.cpp behind the
-- parser, channel_list_impl of channel_list.cpp, and the on_dispatch functions of room.cpp,
-- system.cpp and blackjack.cpp.
use Prim.Native.String.{len}
use text.Mathlib.Text.{◌==◌ as str_eq}
use beast_lounge.Base.{ℕ, Bool, true, false, [], ◌∷◌, ◌++◌, Option, none, some, ltb, if◌then◌else◌}
use beast_lounge.Base.Int.{pos}
use beast_lounge.Boost.{Boost}
use beast_lounge.Rpc.{
  RpcCall, RpcError, text_error, code_error, error_of, message, method_not_found, invalid_params,
  invalid_request, new_call,
}
use beast_lounge.Rpc.Extract.{extract}
use beast_lounge.Rpc.Checked.{Outcome, returned, thrown, escaped, checked_value, checked_string_at}
use beast_lounge.Lounge.{
  ChannelKind, system, room, table, ServerCall, shutdown, stop, Channel, Task, do_play, do_watch,
  do_bet, do_start, do_hit, do_stand, Lounge, Exec, pure, fail, lift, ◌>>=◌, ◌>>◌, update_user,
  send, at,
}
use beast_lounge.Lounge.Members.{
  broadcast, is_joined, insert_user, complete, checked_user, do_join, do_leave,
}

module _ ⦃B : Boost⦄ where
  open B use {Value, string, integer, object, contains, number_cast}

  -- room_impl::do_say(rpc)
  unfoldable pub do_say : Channel → RpcCall → Exec (Unit {0})
  unfolding checked_user broadcast complete lift ◌>>=◌ checked_string_at
  do_say c rpc = do
    checked_user rpc
    λ s. if is_joined rpc.user c then pure tt s else fail (text_error "not in channel") s
    text ← lift (checked_string_at rpc.params "message")
    λ s. (
      returned tt,
      broadcast c
          (object (
            ("verb", string "say")
            ∷ ("cid", integer (pos c.cid))
            ∷ ("name", string c.name)
            ∷ ("user", string (s.users rpc.user).name)
            ∷ ("message", string text)
            ∷ []))
          s,
    )
    complete rpc

  -- room_impl::do_slash(rpc), which nothing calls
  unfoldable pub do_slash : RpcCall → Exec (Unit {0})
  unfolding checked_user fail ◌>>=◌
  do_slash rpc = do checked_user rpc; fail (text_error "Unimplemented")

  -- room_impl::on_dispatch(rpc)
  unfoldable pub room_dispatch : Channel → RpcCall → Exec (Unit {0})
  unfolding do_say fail
  room_dispatch c rpc =
      if str_eq rpc.method "say"
      then do_say c rpc
      else if str_eq rpc.method "slash"
      then do_say c rpc
      else fail (code_error method_not_found)

  -- system_channel::do_identify(rpc)
  unfoldable pub do_identify : Channel → RpcCall → Exec (Unit {0})
  unfolding insert_user complete pure fail lift ◌>>=◌ checked_string_at
  do_identify c rpc = do
    name ← lift (checked_string_at rpc.params "name")
    if ltb 20 (len name) then fail (text_error "Invalid \"name\": too long") else pure tt
    λ s.
        if str_eq (s.users rpc.user).name ""
        then pure tt s
        else fail (text_error "Identity is already set") s
    λ s. (
      returned tt,
      (insert_user c rpc.user
          (record s { users = update_user rpc.user (λ x. record x { name = name }) s.users })).0,
    )
    complete rpc

  -- srv_.shutdown(...), srv_.stop()
  unfoldable pub call_server : ServerCall → Exec (Unit {0})
  call_server call s = (returned tt, record s { server_calls = s.server_calls ++ call ∷ [] })

  -- do_shutdown(rpc), do_stop(rpc)
  unfoldable pub do_shutdown : RpcCall → Exec (Unit {0})
  unfolding call_server complete ◌>>=◌
  do_shutdown rpc = do call_server (shutdown 30); complete rpc

  unfoldable pub do_stop : RpcCall → Exec (Unit {0})
  unfolding call_server complete ◌>>=◌
  do_stop rpc = do call_server stop; complete rpc

  -- system_channel::on_dispatch(rpc)
  unfoldable pub system_dispatch : Channel → RpcCall → Exec (Unit {0})
  unfolding do_identify do_shutdown do_stop fail
  system_dispatch c rpc =
      if str_eq rpc.method "identify"
      then do_identify c rpc
      else if str_eq rpc.method "shutdown"
      then do_shutdown rpc
      else if str_eq rpc.method "stop"
      then do_stop rpc
      else fail (code_error method_not_found)

  unfoldable pub post : Task → Exec (Unit {0})
  post t s = (returned tt, record s { tasks = s.tasks ++ t ∷ [] })

  -- table::on_dispatch(rpc)
  unfoldable pub table_dispatch : RpcCall → Exec (Unit {0})
  unfolding post fail
  table_dispatch rpc =
      if str_eq rpc.method "play"
      then post (do_play rpc)
      else if str_eq rpc.method "watch"
      then post (do_watch rpc)
      else if str_eq rpc.method "bet"
      then post (do_bet rpc)
      else if str_eq rpc.method "start"
      then post (do_start rpc)
      else if str_eq rpc.method "hit"
      then post (do_hit rpc)
      else if str_eq rpc.method "stand"
      then post (do_stand rpc)
      else fail (code_error method_not_found)

  unfoldable pub on_dispatch : ChannelKind → Channel → RpcCall → Exec (Unit {0})
  on_dispatch system c rpc = system_dispatch c rpc
  on_dispatch room c rpc = room_dispatch c rpc
  on_dispatch table c rpc = table_dispatch rpc

  -- channel::dispatch(rpc)
  unfoldable pub channel_dispatch : Channel → RpcCall → Exec (Unit {0})
  unfolding on_dispatch
  channel_dispatch c rpc =
      if str_eq rpc.method "join"
      then do_join c rpc
      else if str_eq rpc.method "leave"
      then do_leave c rpc
      else on_dispatch c.class c rpc

  -- json::number_cast<std::size_t>
  unfoldable pub to_size : Value → Outcome ℕ
  to_size v = elim (number_cast v) [ none ↦ escaped | some n ↦ returned n ]

  unfoldable pub to_channel : Option Channel → Outcome Channel
  to_channel none = thrown (error_of invalid_params "Unknown cid")
  to_channel (some c) = returned c

  -- channel_list_impl::dispatch(rpc)
  unfoldable pub dispatch : RpcCall → Exec (Unit {0})
  unfolding to_size to_channel lift ◌>>=◌ at
  dispatch rpc = do
    v ← lift (checked_value rpc.params "cid")
    cid ← lift (to_size v)
    c ← λ s. lift (to_channel (at cid s)) s
    channel_dispatch c rpc

  -- rpc_error::to_json(id)
  unfoldable pub to_json : RpcError → Option Value → Value
  to_json e id = object (
      ("jsonrpc", string "2.0")
      ∷ ("error", object (("code", integer e.code) ∷ ("message", string e.msg) ∷ []))
      ∷ elim id [ none ↦ [] | some v ↦ ("id", v) ∷ [] ])

  -- rpc.complete(e)
  unfoldable pub complete_error : RpcCall → RpcError → Lounge → Lounge
  unfolding send to_json
  complete_error rpc e s = elim rpc.id [
    | none ↦ s
    | some id ↦ send rpc.user (to_json e (some id)) s
  ]

  -- catch(rpc_error const& e): whether no other exception goes on, and the state.
  unfoldable pub caught : RpcCall → Outcome (Unit {0}) × Lounge → Bool × Lounge
  unfolding complete_error
  caught rpc (returned _, s) = (true, s)
  caught rpc (thrown e, s) = (true, complete_error rpc e s)
  caught rpc (escaped, s) = (false, s)

  -- One round of the loop of operator(): the value that the parser gave, of this user.
  unfoldable pub on_message : ℕ → Value → Lounge → Bool × Lounge
  unfolding caught fail
  on_message u jv s =
      let (rpc, ec) = extract jv (new_call u) in
      caught rpc
        (elim ec [ some e ↦ fail (error_of invalid_request (message e)) s | none ↦ dispatch rpc s ])
