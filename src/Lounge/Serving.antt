-- ===== src/Lounge/Serving.antt =====
-- Every message of every user keeps the channels and the users linked.
use Prim.Native.String.{len}
use text.Mathlib.Text.{◌==◌ as str_eq}
use beast_lounge.Base.{
  ℕ, ◌≡◌, refl, ap, ◌∙◌, Option, none, some, ltb, if◌then◌else◌, inl, inr, Option-cases,
}
use beast_lounge.Boost.{Boost}
use beast_lounge.Rpc.{text_error, RpcCall, new_call, error_of, invalid_request, message}
use beast_lounge.Rpc.Extract.{extract}
use beast_lounge.Rpc.Checked.{Outcome, returned, thrown, escaped, checked_value, checked_string_at}
use beast_lounge.Lounge.{
  ChannelKind, system, room, table, Channel, Lounge, pure, fail, lift, at, Task,
}
use beast_lounge.Lounge.Members.{insert_user}
use beast_lounge.Lounge.Dispatch.{
  do_identify, do_shutdown, do_stop, system_dispatch, post, table_dispatch, on_dispatch,
  channel_dispatch, to_size, to_channel, dispatch, caught, on_message,
}
use beast_lounge.Lounge.Links.{Linked, at-of}
use beast_lounge.Lounge.Membership.{insert_user-Linked}
use beast_lounge.Lounge.Handling.{
  Leads, Leads-bind, Linked-same, Linked-SameBut, Holding, Leads-same, Leads-lift,
  complete_error-SameBut,
}
use beast_lounge.Lounge.Leading.{
  named_state, Leads-any, Leads-if, linked, Leads-fail, Leads-do_join, Leads-do_leave, guard-same,
  Leads-room_dispatch, Leads-call_server, Leads-then_complete, if-same, named,
}

module _ ⦃B : Boost⦄ where
  open B use {Value, contains, object, string, integer}

  Leads-do_identify :
      (c : Channel) (rpc : RpcCall) → Leads (Holding c) (do_identify c rpc) (λ a. Linked)
  unfolding do_identify
  Leads-do_identify c rpc =
      Leads-bind (Holding c) (λ name. Holding c) (λ a. Linked) _ _
        (Leads-lift (Holding c) (checked_string_at rpc.params "name") (linked c))
        (λ name.
          Leads-bind (Holding c) (λ (b : Unit {0}). Holding c) (λ b. Linked)
            (if ltb 20 (len name) then fail (text_error "Invalid \"name\": too long") else pure tt)
            _
            (Leads-same (Holding c) _ (linked c)
              (λ s. if-same (ltb 20 (len name)) (text_error "Invalid \"name\": too long") s))
            (λ b.
              Leads-bind (Holding c) (λ (b : Unit {0}). Holding c) (λ b. Linked) _ _
                (Leads-same (Holding c) _ (linked c) (λ s.
                  guard-same (str_eq (s.users rpc.user).name "")
                    (text_error "Identity is already set") s))
                (λ b.
                  Leads-then_complete c
                    (λ s. (returned tt, (insert_user c rpc.user (named_state name rpc.user s)).0))
                    rpc
                    (Leads-any (Holding c)
                      (λ s. (returned tt, (insert_user c rpc.user (named_state name rpc.user s)).0))
                      (λ s h.
                        (insert_user-Linked c rpc.user (named_state name rpc.user s)
                          (Linked-same s (named_state name rpc.user s) refl
                            (λ v. named name rpc.user v s.users) h.0)
                          (at-of c.cid s (named_state name rpc.user s) refl ∙ h.1)).0)))))

  Leads-system_dispatch :
      (c : Channel) (rpc : RpcCall) → Leads (Holding c) (system_dispatch c rpc) (λ a. Linked)
  unfolding system_dispatch
  Leads-system_dispatch c rpc =
      Leads-if (Holding c) (λ a. Linked) (str_eq rpc.method "identify") _ _
        (Leads-do_identify c rpc)
        (Leads-if (Holding c) (λ a. Linked) (str_eq rpc.method "shutdown") _ _
          (unfold do_shutdown in Leads-then_complete c _ rpc (Leads-call_server c _))
          (Leads-if (Holding c) (λ a. Linked) (str_eq rpc.method "stop") _ _
            (unfold do_stop in Leads-then_complete c _ rpc (Leads-call_server c _))
            (Leads-fail (Holding c) _ (linked c))))

  Leads-post : (c : Channel) (t : Task) → Leads (Holding c) (post t) (λ a. Linked)
  Leads-post c t =
      Leads-any (Holding c) (post t) (λ s h. unfold post in Linked-same s _ refl (λ v. refl) h.0)

  Leads-table_dispatch :
      (c : Channel) (rpc : RpcCall) → Leads (Holding c) (table_dispatch rpc) (λ a. Linked)
  unfolding table_dispatch
  Leads-table_dispatch c rpc =
      Leads-if (Holding c) (λ a. Linked) (str_eq rpc.method "play") _ _ (Leads-post c _)
        (Leads-if (Holding c) (λ a. Linked) (str_eq rpc.method "watch") _ _ (Leads-post c _)
          (Leads-if (Holding c) (λ a. Linked) (str_eq rpc.method "bet") _ _ (Leads-post c _)
            (Leads-if (Holding c) (λ a. Linked) (str_eq rpc.method "start") _ _ (Leads-post c _)
              (Leads-if (Holding c) (λ a. Linked) (str_eq rpc.method "hit") _ _ (Leads-post c _)
                (Leads-if (Holding c) (λ a. Linked) (str_eq rpc.method "stand") _ _ (Leads-post c _)
                  (Leads-fail (Holding c) _ (linked c)))))))

  Leads-on_dispatch :
      (k : ChannelKind) (c : Channel) (rpc : RpcCall)
      → Leads (Holding c) (on_dispatch k c rpc) (λ a. Linked)
  unfolding on_dispatch
  Leads-on_dispatch system c rpc = Leads-system_dispatch c rpc
  Leads-on_dispatch room c rpc = Leads-room_dispatch c rpc
  Leads-on_dispatch table c rpc = Leads-table_dispatch c rpc

  Leads-channel_dispatch :
      (c : Channel) (rpc : RpcCall) → Leads (Holding c) (channel_dispatch c rpc) (λ a. Linked)
  unfolding channel_dispatch
  Leads-channel_dispatch c rpc =
      Leads-if (Holding c) (λ a. Linked) (str_eq rpc.method "join") _ _ (Leads-do_join c rpc)
        (Leads-if (Holding c) (λ a. Linked) (str_eq rpc.method "leave") _ _ (Leads-do_leave c rpc)
          (Leads-on_dispatch c.class c rpc))

  found : (o : Option Channel) (c : Channel) → to_channel o ≡ returned c → o ≡ some c
  unfolding to_channel
  found none c h = cc
  found (some d) c h = cc

  Leads-dispatch : (rpc : RpcCall) → Leads Linked (dispatch rpc) (λ a. Linked)
  unfolding dispatch
  Leads-dispatch rpc =
      Leads-bind Linked (λ (v : Value). Linked) (λ a. Linked) _ _
        (Leads-lift Linked (checked_value rpc.params "cid") (λ s l. l))
        (λ v.
          Leads-bind Linked (λ cid. Linked) (λ a. Linked) _ _
            (Leads-lift Linked (to_size v) (λ s l. l))
            (λ cid.
              Leads-bind Linked Holding (λ a. Linked) _ _
                (record {
                  at_state = λ s l.
                      unfold lift in
                      (
                        l,
                        λ c e.
                            let h = found (at cid s) c e in
                            (l, ap (λ k. at k s) (l.cids cid c h) ∙ h),
                      );
                })
                (λ c. Leads-channel_dispatch c rpc)))

  caught-Linked :
      (rpc : RpcCall) (o : Outcome (Unit {0})) (s : Lounge)
      → Linked s
      → Linked (caught rpc (o, s)).1
  unfolding caught
  caught-Linked rpc (returned a) s l = l
  caught-Linked rpc (thrown e) s l = Linked-SameBut (complete_error-SameBut rpc e s) l
  caught-Linked rpc escaped s l = l

  -- Whatever value a user sends, and however the handler of it ends, a channel then has a user
  -- exactly if the user has the channel, and each channel stands at its own cid, if that was so
  -- before.
  pub on_message-Linked :
      (u : ℕ) (jv : Value) (s : Lounge) → Linked s → Linked (on_message u jv s).1
  unfolding on_message
  on_message-Linked u jv s l = elim (Option-cases (extract jv (new_call u)).1) [
    | inl ok ↦
        rw (ok, on_message)
          (caught-Linked (extract jv (new_call u)).0 _ _
            ((Leads-dispatch (extract jv (new_call u)).0).at_state s l).0)
    | inr (e, bad) ↦
        rw (bad, on_message)
          (unfold fail in
            caught-Linked (extract jv (new_call u)).0
              (thrown (error_of invalid_request (message e))) s l)
  ]
