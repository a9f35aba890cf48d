-- ===== src/Lounge/Members.antt =====
-- The class `channel` of server/core/channel.cpp, and on_insert and on_erase of user.cpp.
use Prim.Native.String.{String}
use text.Mathlib.Text.{◌==◌ as str_eq}
use beast_lounge.Base.{ℕ, Bool, true, false, List, [], ◌∷◌, ◌++◌, none, some, if◌then◌else◌}
use beast_lounge.Base.Int.{pos}
use beast_lounge.Boost.{Boost}
use beast_lounge.Rpc.{RpcCall, text_error}
use beast_lounge.Rpc.Checked.{Outcome, returned, thrown}
use beast_lounge.Lounge.{
  ChannelKind, system, room, table, User, Channel, do_insert, do_erase, Lounge, Exec, ◌>>=◌, ◌>>◌,
  update_user, send, put_channel,
}

module _ ⦃B : Boost⦄ where
  open B use {Value, string, integer, object, contains, insert, erase, elements}

  -- is_joined(u)
  abbrev pub is_joined : ℕ → Channel → Bool
  is_joined u c = contains u c.users

  -- The loop of channel::send: each user of the list whose pointer can be locked gets the message.
  unfoldable pub send_each : List ℕ → Value → Lounge → Lounge
  unfolding send
  send_each [] jv s = s
  send_each (u ∷ us) jv s = send_each us jv (if (s.users u).connected then send u jv s else s)

  -- channel::send(jv)
  unfoldable pub broadcast : Channel → Value → Lounge → Lounge
  unfolding send_each
  broadcast c jv s = send_each (elements c.users) jv s

  -- The message that a user joins or leaves a channel.
  unfoldable pub notice : String → Channel → User → Value
  notice verb c x = object (
      ("cid", integer (pos c.cid))
      ∷ ("verb", string verb)
      ∷ ("name", string c.name)
      ∷ ("user", string x.name)
      ∷ [])

  -- on_insert(u) and on_erase(u) of the derived classes: the table posts, the others do nothing.
  unfoldable pub on_insert : ChannelKind → ℕ → Lounge → Lounge
  on_insert table u s = record s { tasks = s.tasks ++ do_insert u ∷ [] }
  on_insert system u s = s
  on_insert room u s = s

  unfoldable pub on_erase : ChannelKind → ℕ → Lounge → Lounge
  on_erase table u s = record s { tasks = s.tasks ++ do_erase u ∷ [] }
  on_erase system u s = s
  on_erase room u s = s

  -- user::on_insert(c), user::on_erase(c)
  abbrev pub user_on_insert : ℕ → ℕ → Lounge → Lounge
  user_on_insert u cid s = record s {
    users = update_user u (λ x. record x { channels = insert cid x.channels }) s.users;
  }

  abbrev pub user_on_erase : ℕ → ℕ → Lounge → Lounge
  user_on_erase u cid s = record s {
    users = update_user u (λ x. record x { channels = erase cid x.channels }) s.users;
  }

  -- channel::insert(u): the state, and whether the user was not in the channel
  unfoldable pub insert_user : Channel → ℕ → Lounge → Lounge × Bool
  unfolding broadcast notice on_insert
  insert_user c u s =
      if contains u c.users
      then (s, false)
      else let c' = record c { users = insert u c.users } in
        (
          on_insert c.class u (
              user_on_insert u c.cid
                (broadcast c' (notice "join" c' (s.users u)) (put_channel c' s))),
          true,
        )

  -- Also notify the user, if they are still connected.
  abbrev pub notify : ℕ → Value → Lounge → Lounge
  notify u jv s = if (s.users u).connected then send u jv s else s

  -- channel::erase(u): the state, and whether the user was in the channel
  unfoldable pub erase_user : Channel → ℕ → Lounge → Lounge × Bool
  unfolding broadcast notice on_erase send
  erase_user c u s =
      if contains u c.users
      then (let c' = record c { users = erase u c.users } in
          let jv = notice "leave" c' (s.users u) in
          (
            on_erase c.class u
                (user_on_erase u c.cid (notify u jv (broadcast c' jv (put_channel c' s)))),
            true,
          ))
      else (s, false)

  -- rpc.complete()
  unfoldable pub complete : RpcCall → Exec (Unit {0})
  unfolding send
  complete rpc s = elim rpc.id [
    | none ↦ (returned tt, s)
    | some id ↦ (returned tt, send rpc.user (object (("id", id) ∷ ("result", rpc.result) ∷ [])) s)
  ]

  -- checked_user(rpc)
  unfoldable pub checked_user : RpcCall → Exec (Unit {0})
  checked_user rpc s =
      if str_eq (s.users rpc.user).name ""
      then (thrown (text_error "No identity set"), s)
      else (returned tt, s)

  -- if(! inserted) rpc.fail(...)
  unfoldable pub require : String → Lounge × Bool → Outcome (Unit {0}) × Lounge
  require msg (s, true) = (returned tt, s)
  require msg (s, false) = (thrown (text_error msg), s)

  -- do_join(rpc)
  unfoldable pub do_join : Channel → RpcCall → Exec (Unit {0})
  unfolding checked_user require insert_user complete ◌>>=◌
  do_join c rpc = do
    checked_user rpc
    λ s. require "Already in channel" (insert_user c rpc.user s)
    complete rpc

  -- do_leave(rpc)
  unfoldable pub do_leave : Channel → RpcCall → Exec (Unit {0})
  unfolding require erase_user complete ◌>>=◌
  do_leave c rpc = do λ s. require "Not in channel" (erase_user c rpc.user s); complete rpc
