-- ===== src/Lounge/Start.antt =====
-- The channels of a server that starts: the constructors of channel_list_impl and channel, in
-- server/core/channel_list.cpp and channel.cpp, and the three channels that room.cpp, system.cpp and
-- blackjack.cpp make.
use Prim.Native.String.{String}
use beast_lounge.Base.{ℕ, zero, suc, ◌≡◌, refl, sym, ◌∙◌, false, Option, none, some, [], ◌∷◌}
use beast_lounge.Boost.{Boost}
use beast_lounge.Lounge.{ChannelKind, system, room, table, User, Channel, Lounge, at}
use beast_lounge.Lounge.Links.{has_user, Linked}
use beast_lounge.Lounge.Places.{next_id, resized, insert_channel}

infixl 5 ◌>>=◌
abbrev ◌>>=◌ {ℓ κ} : {A : Type ℓ} {B : Type κ} → Option A → (A → Option B) → Option B
none >>= f = none
some a >>= f = f a

-- next_uid_ and next_cid_
pub record Ids : Type 0 where
  pub next_uid : ℕ
  pub next_cid : ℕ

module _ ⦃B : Boost⦄ where
  -- channel_list_impl(srv), without the room; the users are those that will come.
  unfoldable pub new_channel_list : (ℕ → User) → Ids × Lounge
  new_channel_list users = (
    record { next_uid = 1000; next_cid = 1000 },
    record { users = users; channels = none ∷ []; tasks = []; server_calls = [] },
  )

  -- channel(name, list) and channel(reserved_cid, name, list), and the insertion into the list, which
  -- asserts that the cid is free
  unfoldable pub make_channel :
      ChannelKind → String → Option ℕ → Ids × Lounge → Option (Ids × Lounge)
  unfolding insert_channel
  make_channel class name reserved (ids, s) =
      let uid = (next_id ids.next_uid).1 in
      let cid : ℕ = elim reserved [ none ↦ (next_id ids.next_cid).1 | some cid ↦ cid ] in
      let ids' : Ids = record {
        next_uid = (next_id ids.next_uid).0;
        next_cid = elim reserved [ none ↦ (next_id ids.next_cid).0 | some cid ↦ ids.next_cid ];
      } in
      elim (insert_channel
        (record { class = class; uid = uid; cid = cid; name = name; users = B.empty }) s) [
          | none ↦ none
          | some s' ↦ some (ids', s')
        ]

  abbrev pub make_room : String → Ids × Lounge → Option (Ids × Lounge)
  make_room name s = make_channel room name (some 2) s

  abbrev pub make_system_channel : Ids × Lounge → Option (Ids × Lounge)
  make_system_channel s = make_channel system "System" (some 1) s

  abbrev pub make_table : Ids × Lounge → Option (Ids × Lounge)
  make_table s = make_channel table "Blackjack" (some 3) s

  -- The server when its services have started: if no assertion failed
  unfoldable pub started : (ℕ → User) → Option Lounge
  unfolding new_channel_list make_channel
  started users = do
    rooms ← make_room "General" (new_channel_list users)
    with_system ← make_system_channel rooms
    (ids, s) ← make_table with_system
    some s

  abbrev opened_channel : ChannelKind → ℕ → ℕ → String → Channel
  opened_channel class uid cid name = record {
    class = class;
    uid = uid;
    cid = cid;
    name = name;
    users = B.empty;
  }

  -- System at 1, General at 2 and the table at 3
  abbrev pub first_lounge : (ℕ → User) → Lounge
  first_lounge users = record {
    users = users;
    channels =
        none
        ∷ some (opened_channel system 1002 1 "System")
        ∷ some (opened_channel room 1001 2 "General")
        ∷ some (opened_channel table 1003 3 "Blackjack")
        ∷ [];
    tasks = [];
    server_calls = [];
  }

  started_lem : (users : ℕ → User) → started users ≡ some (first_lounge users)
  unfolding started new_channel_list make_channel insert_channel resized
  started_lem users = refl

  first_cid :
      (users : ℕ → User) (i : ℕ) (c : Channel) → at i (first_lounge users) ≡ some c → c.cid ≡ i
  unfolding at
  first_cid users zero c e = cc
  first_cid users (suc zero) c e = cc
  first_cid users (suc (suc zero)) c e = cc
  first_cid users (suc (suc (suc zero))) c e = cc
  first_cid users (suc (suc (suc (suc i)))) c e = cc

  nobody : (users : ℕ → User) (i v : ℕ) → has_user v (at i (first_lounge users)) ≡ false
  unfolding at
  nobody users zero v = refl
  nobody users (suc zero) v = B.contains-empty v
  nobody users (suc (suc zero)) v = B.contains-empty v
  nobody users (suc (suc (suc zero))) v = B.contains-empty v
  nobody users (suc (suc (suc (suc i)))) v = refl

  -- If no user has a channel yet, no assertion fails while the server starts, and its channels and users
  -- are linked then.
  pub started-Linked :
      (users : ℕ → User)
      → ((v i : ℕ) → B.contains i (users v).channels ≡ false)
      → (started users ≡ some (first_lounge users)) × Linked (first_lounge users)
  started-Linked users fresh = (
    started_lem users,
    record { cids = first_cid users; links = λ i v. nobody users i v ∙ sym (fresh v i) },
  )
