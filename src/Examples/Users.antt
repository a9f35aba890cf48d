-- ===== src/Examples/Users.antt =====
-- Users and channels.
use Prim.Native.String.{String}
use text.Mathlib.Text.{◌==◌ as str_eq}
use beast_lounge.Base.{
  List, ◌⊎◌, inl, inr, ℕ, zero, suc, ◌≡◌, refl, sym, ap, ◌∙◌, ◌&&◌, ◌==◌, if◌then◌else◌, ◌∷◌, ◌++◌,
  [], true, false, some, none, Option,
}
use beast_lounge.Base.Int.{pos}
use beast_lounge.Rpc.{new_call, text_error}
use beast_lounge.Rpc.Extract.{extract}
use beast_lounge.Rpc.WellFormed.{IsRequest, version_1, extract-ok_iff}
use beast_lounge.Lounge.{room, User, Channel, Lounge, at}
use beast_lounge.Lounge.Members.{broadcast, insert_user, notice, on_insert}
use beast_lounge.Lounge.Dispatch.{on_message, complete_error}
use beast_lounge.Lounge.Broadcast.{SameBut, broadcast_lem}
use beast_lounge.Lounge.Links.{has_user, Linked}
use beast_lounge.Lounge.Farewell.{destroy_user, Left, destroy_user_lem}
use beast_lounge.Lounge.Membership.{insert_user-Linked}
use beast_lounge.Lounge.Serving.{on_message-Linked}
use beast_lounge.Lounge.Others.{Apart}
use beast_lounge.Lounge.Others.Messages.{on_message-others}
use beast_lounge.Lounge.Refusals.{on_message_version_1}
use beast_lounge.Http.Session.{IoError, end_of_stream}
use beast_lounge.Lounge.Start.{first_lounge, started-Linked}
use beast_lounge.Lounge.Sessions.{new_ws_session, World, WorldEvent, calls, dies, take_turns}
use beast_lounge.Lounge.Sessions.Order.{cleared, Orderly, take_turns-Orderly}
use beast_lounge.Examples.Json.{Json, test_boost, quoted, number}

abbrev pub visitor : User ⦃B = test_boost⦄
visitor = record { name = "Ann"; connected = true; channels = []; sent = [] }

abbrev pub general : Channel ⦃B = test_boost⦄
general = record { class = room; uid = 1; cid = 1; name = "General"; users = [] }

-- A server with one channel, at position 1, and nobody in it.
abbrev pub quiet : Lounge ⦃B = test_boost⦄
quiet = record {
  users = λ u. visitor;
  channels = none ∷ some general ∷ [];
  tasks = [];
  server_calls = [];
}

abbrev two_places : ℕ → Option (Channel ⦃B = test_boost⦄)
two_places zero = none
two_places (suc zero) = some general
two_places (suc (suc i)) = none

pub at-quiet : (i : ℕ) → at ⦃B = test_boost⦄ i quiet ≡ two_places i
unfolding at
at-quiet zero = refl
at-quiet (suc zero) = refl
at-quiet (suc (suc i)) = refl

quiet-cids : (i : ℕ) (c : Channel ⦃B = test_boost⦄) → two_places i ≡ some c → c.cid ≡ i
quiet-cids zero c e = cc
quiet-cids (suc zero) c e = cc
quiet-cids (suc (suc i)) c e = cc

quiet-links : (i v : ℕ) → has_user ⦃B = test_boost⦄ v (two_places i) ≡ false
quiet-links zero v = refl
quiet-links (suc zero) v = refl
quiet-links (suc (suc i)) v = refl

pub quiet-Linked : Linked ⦃B = test_boost⦄ quiet
quiet-Linked = record {
  cids = λ i c e. quiet-cids i c (sym (at-quiet i) ∙ e);
  links = λ i v. ap (has_user ⦃B = test_boost⦄ v) (at-quiet i) ∙ quiet-links i v;
}

abbrev join_request : Json
join_request = test_boost.object (
    ("jsonrpc", quoted "2.0")
    ∷ ("id", number (pos 3))
    ∷ ("method", quoted "join")
    ∷ ("params", test_boost.object (("cid", number (pos 1)) ∷ []))
    ∷ [])

on_message-Linked_example :
    Linked ⦃B = test_boost⦄ (on_message ⦃B = test_boost⦄ 4 join_request quiet).1
on_message-Linked_example = on_message-Linked ⦃B = test_boost⦄ 4 join_request quiet quiet-Linked

-- The server and its channel after user 4 is in.
abbrev pub busy : Lounge ⦃B = test_boost⦄
busy = (insert_user ⦃B = test_boost⦄ general 4 quiet).0

abbrev pub attended : Channel ⦃B = test_boost⦄
attended = record general { users = 4 ∷ [] }

busy-Linked : Linked ⦃B = test_boost⦄ busy
busy-Linked = (insert_user-Linked ⦃B = test_boost⦄ general 4 quiet quiet-Linked (at-quiet 1)).0

pub at-busy : at ⦃B = test_boost⦄ attended.cid busy ≡ some attended
unfolding at insert_user broadcast notice on_insert
at-busy = refl

abbrev hello : Json
hello = quoted "hello"

broadcast_lem_example :
    ((v : ℕ)
      → ((broadcast ⦃B = test_boost⦄ attended hello busy).users v).sent
        ≡ (busy.users v).sent
          ++ (if (busy.users v).connected && test_boost.contains v attended.users
              then hello ∷ []
              else []))
    × SameBut ⦃B = test_boost⦄ busy (broadcast ⦃B = test_boost⦄ attended hello busy)
broadcast_lem_example = broadcast_lem ⦃B = test_boost⦄ attended hello busy

-- A request of version 1.0.
abbrev old_request : Json
old_request =
    test_boost.object
      (("id", number (pos 3)) ∷ ("method", quoted "join") ∷ ("params", test_boost.array []) ∷ [])

old_request-IsRequest : IsRequest ⦃B = test_boost⦄ old_request
old_request-IsRequest = version_1 refl refl (λ e. cc) refl refl

old_accepted : (extract ⦃B = test_boost⦄ old_request (new_call ⦃B = test_boost⦄ 4)).1 ≡ none
old_accepted = (extract-ok_iff ⦃B = test_boost⦄ old_request 4).1 old_request-IsRequest

on_message_version_1_example : on_message ⦃B = test_boost⦄ 4 old_request quiet ≡ (
  true,
  complete_error ⦃B = test_boost⦄
      (extract ⦃B = test_boost⦄ old_request (new_call ⦃B = test_boost⦄ 4)).0
      (text_error "expected object")
      quiet,
)
on_message_version_1_example =
    on_message_version_1 ⦃B = test_boost⦄ 4 old_request quiet refl old_accepted

destroy_user_lem_example :
    (s' : Lounge ⦃B = test_boost⦄) × (destroy_user ⦃B = test_boost⦄ 4 busy ≡ some s')
    × Left ⦃B = test_boost⦄ 4 busy s'
destroy_user_lem_example = destroy_user_lem ⦃B = test_boost⦄ 4 busy busy-Linked

-- The parser of a server that gets one request only.
abbrev one_request : String → Json ⊎ IoError
one_request text = if str_eq text "" then inr end_of_stream else inl join_request

abbrev crowd : World ⦃B = test_boost⦄ one_request
crowd = record {
  sessions = λ u. new_ws_session;
  lounge = first_lounge ⦃B = test_boost⦄ (λ u. visitor);
}

abbrev visit : List (WorldEvent ⦃B = test_boost⦄ one_request)
visit =
    calls 4 none ""
    ∷ calls 5 none ""
    ∷ calls 4 none "{}"
    ∷ calls 5 (some end_of_stream) ""
    ∷ dies 4
    ∷ []

crowd-Orderly : Orderly ⦃B = test_boost⦄ one_request crowd
crowd-Orderly = record {
  linked = (started-Linked ⦃B = test_boost⦄ (λ u. visitor) (λ v i. refl)).1;
  clean = λ u. cleared refl;
}

take_turns-Orderly_example :
    Orderly ⦃B = test_boost⦄ one_request (take_turns ⦃B = test_boost⦄ one_request visit crowd)
take_turns-Orderly_example =
    take_turns-Orderly ⦃B = test_boost⦄ one_request visit crowd crowd-Orderly

-- User 7 joins the channel that user 4 is in.
on_message-others_example :
    Apart ⦃B = test_boost⦄ 7 busy.users (on_message ⦃B = test_boost⦄ 7 join_request busy).1.users
    × ((i v : ℕ)
        → (v == 7) ≡ false
        → has_user ⦃B = test_boost⦄ v
            (at ⦃B = test_boost⦄ i (on_message ⦃B = test_boost⦄ 7 join_request busy).1)
          ≡ has_user ⦃B = test_boost⦄ v (at ⦃B = test_boost⦄ i busy))
on_message-others_example = on_message-others ⦃B = test_boost⦄ 7 join_request busy busy-Linked
