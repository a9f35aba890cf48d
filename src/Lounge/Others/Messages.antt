-- ===== src/Lounge/Others/Messages.antt =====
-- From the dispatch by cid to the whole message, for the users who did not send it.
use text.Mathlib.Text.{◌==◌ as str_eq}
use beast_lounge.Base.{ℕ, ◌≡◌, refl, sym, ap, subst, ◌∙◌, false, ◌==◌, inl, inr, Option-cases}
use beast_lounge.Boost.{Boost}
use beast_lounge.Rpc.{RpcCall, RpcError, new_call, error_of, invalid_request, message}
use beast_lounge.Rpc.Extract.{extract}
use beast_lounge.Rpc.WellFormed.{extract-user}
use beast_lounge.Rpc.Checked.{Outcome, returned, thrown, escaped, checked_value}
use beast_lounge.Lounge.{
  ChannelKind, system, room, table, User, Channel, Lounge, fail, lift, at, Task, ServerCall,
  shutdown, stop,
}
use beast_lounge.Lounge.Dispatch.{
  room_dispatch, do_shutdown, do_stop, call_server, system_dispatch, post, table_dispatch,
  on_dispatch, channel_dispatch, to_size, to_channel, dispatch, complete_error, caught, on_message,
}
use beast_lounge.Lounge.Links.{has_user, Linked}
use beast_lounge.Lounge.Serving.{on_message-Linked}
use beast_lounge.Lounge.Others.{Apart, Apart-refl, Apart-trans, Apart-send}
use beast_lounge.Lounge.Others.Handlers.{
  Keeps, Keeps-bind, Keeps-same, Keeps-lift, Keeps-fail, Keeps-if, Keeps-then, Keeps-complete,
  Keeps-do_join, Keeps-do_leave, Keeps-do_say, Keeps-do_identify,
}

module _ ⦃B : Boost⦄ where
  open B use {Value, contains}

  Keeps-room_dispatch : (c : Channel) (rpc : RpcCall) → Keeps rpc.user (room_dispatch c rpc)
  unfolding room_dispatch
  Keeps-room_dispatch c rpc =
      Keeps-if (str_eq rpc.method "say") _ _ (Keeps-do_say c rpc)
        (Keeps-if (str_eq rpc.method "slash") _ _ (Keeps-do_say c rpc) (Keeps-fail _))

  Keeps-call_server : {u : ℕ} (call : ServerCall) → Keeps u (call_server call)
  Keeps-call_server call = Keeps-same (call_server call) (λ s. unfold call_server in refl)

  Keeps-system_dispatch : (c : Channel) (rpc : RpcCall) → Keeps rpc.user (system_dispatch c rpc)
  unfolding system_dispatch
  Keeps-system_dispatch c rpc =
      Keeps-if (str_eq rpc.method "identify") _ _ (Keeps-do_identify c rpc) (
        Keeps-if (str_eq rpc.method "shutdown") _ _
          (unfold do_shutdown in
            Keeps-then _ _ (Keeps-call_server (shutdown 30)) (Keeps-complete rpc))
          (Keeps-if (str_eq rpc.method "stop") _ _
            (unfold do_stop in Keeps-then _ _ (Keeps-call_server stop) (Keeps-complete rpc))
            (Keeps-fail _)))

  Keeps-post : {u : ℕ} (t : Task) → Keeps u (post t)
  Keeps-post t = Keeps-same (post t) (λ s. unfold post in refl)

  Keeps-table_dispatch : (rpc : RpcCall) → Keeps rpc.user (table_dispatch rpc)
  unfolding table_dispatch
  Keeps-table_dispatch rpc = Keeps-if (str_eq rpc.method "play") _ _ (Keeps-post _) (
      Keeps-if (str_eq rpc.method "watch") _ _ (Keeps-post _) (
        Keeps-if (str_eq rpc.method "bet") _ _ (Keeps-post _) (
          Keeps-if (str_eq rpc.method "start") _ _ (Keeps-post _) (
            Keeps-if (str_eq rpc.method "hit") _ _ (Keeps-post _)
              (Keeps-if (str_eq rpc.method "stand") _ _ (Keeps-post _) (Keeps-fail _))))))

  Keeps-on_dispatch :
      (k : ChannelKind) (c : Channel) (rpc : RpcCall) → Keeps rpc.user (on_dispatch k c rpc)
  unfolding on_dispatch
  Keeps-on_dispatch system c rpc = Keeps-system_dispatch c rpc
  Keeps-on_dispatch room c rpc = Keeps-room_dispatch c rpc
  Keeps-on_dispatch table c rpc = Keeps-table_dispatch rpc

  Keeps-channel_dispatch : (c : Channel) (rpc : RpcCall) → Keeps rpc.user (channel_dispatch c rpc)
  unfolding channel_dispatch
  Keeps-channel_dispatch c rpc = Keeps-if (str_eq rpc.method "join") _ _ (Keeps-do_join c rpc) (
      Keeps-if (str_eq rpc.method "leave") _ _ (Keeps-do_leave c rpc)
        (Keeps-on_dispatch c.class c rpc))

  Keeps-find : {u : ℕ} (cid : ℕ) → Keeps {A = Channel} u (λ s. lift (to_channel (at cid s)) s)
  Keeps-find cid = Keeps-same _ (λ s. unfold lift in refl)

  Keeps-dispatch : (rpc : RpcCall) → Keeps rpc.user (dispatch rpc)
  unfolding dispatch
  Keeps-dispatch rpc = Keeps-bind _ _ (Keeps-lift (checked_value rpc.params "cid")) (λ v.
      Keeps-bind _ _ (Keeps-lift (to_size v))
        (λ cid. Keeps-bind _ _ (Keeps-find cid) (λ c. Keeps-channel_dispatch c rpc)))

  Apart-complete_error :
      (u : ℕ) (rpc : RpcCall) (e : RpcError) (s : Lounge)
      → Apart u s.users (complete_error rpc e s).users
  unfolding complete_error
  Apart-complete_error u rpc e s = elim (Option-cases rpc.id) [
    | inl h ↦ rw (h, complete_error) (Apart-refl u s.users)
    | inr (id, h) ↦ rw (h, complete_error) (Apart-send u rpc.user _ s)
  ]

  Apart-caught :
      (u : ℕ) (rpc : RpcCall) (f : ℕ → User) (o : Outcome (Unit {0})) (s : Lounge)
      → Apart u f s.users
      → Apart u f (caught rpc (o, s)).1.users
  unfolding caught
  Apart-caught u rpc f (returned a) s h = h
  Apart-caught u rpc f (thrown e) s h = Apart-trans h (Apart-complete_error u rpc e s)
  Apart-caught u rpc f escaped s h = h

  on_message-Apart : (u : ℕ) (jv : Value) (s : Lounge) → Apart u s.users (on_message u jv s).1.users
  unfolding on_message
  on_message-Apart u jv s = elim (Option-cases (extract jv (new_call u)).1) [
    | inl ok ↦
        rw (ok, on_message)
          (Apart-caught u (extract jv (new_call u)).0 s.users _ _ (
            subst (λ v. Apart v s.users (dispatch (extract jv (new_call u)).0 s).1.users)
              (extract-user jv u ok) ((Keeps-dispatch (extract jv (new_call u)).0).at_state s)))
    | inr (e, bad) ↦
        rw (bad, on_message)
          (unfold fail in
            Apart-caught u (extract jv (new_call u)).0 s.users
              (thrown (error_of invalid_request (message e))) s (Apart-refl u s.users))
  ]

  -- Whatever value a user sends, and however the handler of it ends: every other user keeps its name and
  -- its channels, and stays in exactly the channels it was in, if the channels and the users were linked
  -- before; nobody is connected or disconnected; and what was sent to anyone stays sent, with more after
  -- it at most.
  pub on_message-others :
      (u : ℕ) (jv : Value) (s : Lounge)
      → Linked s
      → Apart u s.users (on_message u jv s).1.users
        × ((i v : ℕ)
            → (v == u) ≡ false
            → has_user v (at i (on_message u jv s).1) ≡ has_user v (at i s))
  on_message-others u jv s l =
      let a = on_message-Apart u jv s in
      let l' = on_message-Linked u jv s l in
      (a, λ i v h. l'.links i v ∙ ap (contains i) (a.same_set v h) ∙ sym (l.links i v))
