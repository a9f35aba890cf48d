-- ===== src/Lounge.antt =====
-- The users and the channels of the server: server/core/user.hpp, user.cpp, channel.hpp,
-- channel.cpp, channel_list.cpp, room.cpp, system.cpp and the class `table` of blackjack.cpp. One
-- state holds them all, and a string is the sequence of its bytes. A handler is a function of the
-- state that returns or throws; what it has written before a throw stays written.
pub mod Members
pub mod Dispatch
pub mod Broadcast
pub mod Links
pub mod Membership
pub mod Farewell
pub mod Handling
pub mod Leading
pub mod Start
pub mod Serving
pub mod Sessions
pub mod Refusals
pub mod Render
pub mod Places
pub mod Table
pub mod Threads
pub mod Others
use Prim.Native.String.{String}
use beast_lounge.Base.{
  ℕ, suc, Bool, true, false, List, [], ◌∷◌, ◌++◌, Option, none, some, get_or, set, ◌==◌,
  if◌then◌else◌,
}
use beast_lounge.Boost.{Boost}
use beast_lounge.Rpc.{RpcCall, RpcError}
use beast_lounge.Rpc.Checked.{Outcome, returned, thrown, escaped}
use beast_lounge.Blackjack.Game.{Game}
use beast_lounge.Blackjack.Shoe.{Rand}

-- The classes derived from channel: system_channel, room_impl, table.
pub data ChannelKind : Type 0 where
  system room table : ChannelKind

-- What system_channel asks of the server.
pub data ServerCall : Type 0 where
  shutdown : ℕ → ServerCall
  stop : ServerCall

module _ ⦃B : Boost⦄ where
  open B use {Value, FlatSet}

  -- user: `connected` says whether its weak pointers can be locked, `channels` is the set of its
  -- channels by their cid, and `sent` are the messages that send() was given, oldest first.
  pub record User : Type 0 where
    pub name : String
    pub connected : Bool
    pub channels : FlatSet
    pub sent : List Value

  pub record Channel : Type 0 where
    pub class : ChannelKind
    pub uid : ℕ
    pub cid : ℕ
    pub name : String
    pub users : FlatSet

  -- What the table has posted to its strand.
  pub data Task : Type 0 where
    do_insert do_erase : ℕ → Task
    do_play do_watch do_bet do_start do_hit do_stand : RpcCall → Task

  -- `channels` is v_ of channel_list_impl, a user is known by its address, and `server_calls` are
  -- the calls made of the server, oldest first.
  pub record Lounge : Type 0 where
    pub users : ℕ → User
    pub channels : List (Option Channel)
    pub tasks : List Task
    pub server_calls : List ServerCall

  -- A handler.
  abbrev pub Exec {ℓ} : Type ℓ → Type ℓ
  Exec A = Lounge → Outcome A × Lounge

  unfoldable pub pure {ℓ} : {A : Type ℓ} → A → Exec A
  pure a s = (returned a, s)

  -- rpc.fail(...)
  unfoldable pub fail {ℓ} : {A : Type ℓ} → RpcError → Exec A
  fail e s = (thrown e, s)

  unfoldable pub lift {ℓ} : {A : Type ℓ} → Outcome A → Exec A
  lift o s = (o, s)

  abbrev resume {ℓ κ} :
      {A : Type ℓ} {B : Type κ} → (A → Exec B) → Outcome A → Lounge → Outcome B × Lounge
  resume f (returned a) s = f a s
  resume f (thrown e) s = (thrown e, s)
  resume f escaped s = (escaped, s)

  infixl 5 ◌>>=◌ ◌>>◌
  unfoldable pub ◌>>=◌ {ℓ κ} : {A : Type ℓ} {B : Type κ} → Exec A → (A → Exec B) → Exec B
  unfolding pure fail lift
  ◌>>=◌ m f s = let (o, s') = m s in resume f o s'

  abbrev pub ◌>>◌ {κ} : {B : Type κ} → Exec (Unit {0}) → Exec B → Exec B
  m >> k = m >>= λ _. k

  abbrev pub update_user : ℕ → (User → User) → (ℕ → User) → ℕ → User
  update_user u f users v = if u == v then f (users v) else users v

  -- u->send(jv), of a user that is kept alive
  unfoldable pub send : ℕ → Value → Lounge → Lounge
  send u jv s = record s {
    users = update_user u (λ x. record x { sent = x.sent ++ jv ∷ [] }) s.users;
  }

  -- at(cid)
  unfoldable pub at : ℕ → Lounge → Option Channel
  at cid s = get_or s.channels cid none

  -- The channel object with other members.
  abbrev pub put_channel : Channel → Lounge → Lounge
  put_channel c s = record s { channels = set s.channels c.cid (some c) }
