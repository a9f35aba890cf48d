-- ===== src/Lounge/Threads.antt =====
-- channel::insert and channel::erase of server/core/channel.cpp, with on_insert and on_erase of user.cpp,
-- as the threads run them: one critical section after the other, with those of other users between.
-- The calls of one user are made on the strand of its session, one at a time.
pub mod Phases
pub mod Effects
pub mod Steps
pub mod Synced
pub mod Alone
pub mod Changes
pub mod Calls
use beast_lounge.Base.{ℕ, Bool, true, false, List, [], ◌∷◌, Option, none, some, ◌==◌, if◌then◌else◌}
use beast_lounge.Boost.{Boost}
use beast_lounge.Lounge.{ChannelKind, Channel, Lounge, at, put_channel}
use beast_lounge.Lounge.Members.{notify, notice, on_insert, on_erase, user_on_insert, user_on_erase}

-- insert(u) or erase(u) of the channel at that cid
pub data Call : Type 0 where
  inserts erases : ℕ → Call

module _ ⦃B : Boost⦄ where
  open B use {Value, contains, insert, erase, elements}

  -- Where the thread of a user stands: at rest, with what its last call returned; or in a call, after the
  -- user was put in or taken out, while the list of the channel is told, or after the set of the user
  -- is changed.
  pub data Point : Type 0 where
    at_rest : Bool → Point
    put_in taken_out : ℕ → Point
    telling_join telling_leave : ChannelKind → ℕ → Value → List ℕ → Point
    told : ChannelKind → ℕ → Point
    has_joined has_left : ChannelKind → Point

  -- The first critical section of insert(u) and of erase(u), at the channel of that cid if there is one
  unfoldable pub begin_insert : ℕ → ℕ → Option Channel → Lounge → Point × Lounge
  begin_insert u i none s = (at_rest false, s)
  begin_insert u i (some c) s =
      if contains u c.users
      then (at_rest false, s)
      else (put_in i, put_channel (record c { users = insert u c.users }) s)

  unfoldable pub begin_erase : ℕ → ℕ → Option Channel → Lounge → Point × Lounge
  begin_erase u i none s = (at_rest false, s)
  begin_erase u i (some c) s =
      if contains u c.users
      then (taken_out i, put_channel (record c { users = erase u c.users }) s)
      else (at_rest false, s)

  abbrev pub begin_call : ℕ → Call → Lounge → Point × Lounge
  begin_call u (inserts i) s = begin_insert u i (at i s) s
  begin_call u (erases i) s = begin_erase u i (at i s) s

  -- The critical section of send(), which copies the list of the users
  abbrev pub list_join : ℕ → ℕ → Option Channel → Lounge → Point
  list_join u i none s = put_in i
  list_join u i (some c) s = telling_join c.class i (notice "join" c (s.users u)) (elements c.users)

  abbrev pub list_leave : ℕ → ℕ → Option Channel → Lounge → Point
  list_leave u i none s = taken_out i
  list_leave u i (some c) s =
      telling_leave c.class i (notice "leave" c (s.users u)) (elements c.users)

  -- The next step of a thread: a critical section, the end of send() to one user of the list, or what the
  -- derived class does at the end. A thread at rest begins the call.
  unfoldable pub advance : ℕ → Call → Point → Lounge → Point × Lounge
  unfolding begin_insert begin_erase on_insert on_erase
  advance u call (at_rest answer) s = begin_call u call s
  advance u call (put_in i) s = (list_join u i (at i s) s, s)
  advance u call (telling_join k i jv (v ∷ vs)) s = (telling_join k i jv vs, notify v jv s)
  advance u call (telling_join k i jv []) s = (has_joined k, user_on_insert u i s)
  advance u call (has_joined k) s = (at_rest true, on_insert k u s)
  advance u call (taken_out i) s = (list_leave u i (at i s) s, s)
  advance u call (telling_leave k i jv (v ∷ vs)) s = (telling_leave k i jv vs, notify v jv s)
  advance u call (telling_leave k i jv []) s = (told k i, notify u jv s)
  advance u call (told k i) s = (has_left k, user_on_erase u i s)
  advance u call (has_left k) s = (at_rest true, on_erase k u s)

  -- What all threads share, and where the thread of each user stands.
  pub record World : Type 0 where
    pub lounge : Lounge
    pub points : ℕ → Point

  -- All threads at rest
  abbrev pub resting : Lounge → World
  resting s = record { lounge = s; points = λ u. at_rest false }

  -- One step of the thread of one user, who makes that call if the thread is at rest.
  unfoldable pub turn : ℕ → Call → World → World
  unfolding advance
  turn u call w =
      let (p, s) = advance u call (w.points u) w.lounge in
      record { lounge = s; points = λ v. if u == v then p else w.points v }

  -- The scheduler lets these users step, in this order.
  unfoldable pub turns : List (ℕ × Call) → World → World
  unfolding turn
  turns [] w = w
  turns ((u, call) ∷ ts) w = turns ts (turn u call w)
