-- ===== src/Lounge/Leading.antt =====
-- Steps of handlers of the server that keep the channels and the users linked.
use Prim.Native.String.{String}
use text.Mathlib.Text.{◌==◌ as str_eq}
use beast_lounge.Base.{
  ℕ, ◌≡◌, refl, sym, subst, Bool, true, false, [], ◌∷◌, if◌then◌else◌, Bool-cases, inl, inr, ◌==◌,
}
use beast_lounge.Boost.{Boost}
use beast_lounge.Base.Int.{pos}
use beast_lounge.Rpc.{text_error, RpcCall, RpcError}
use beast_lounge.Rpc.Checked.{Outcome, returned, checked_string_at}
use beast_lounge.Lounge.{User, Channel, Lounge, Exec, pure, fail, ◌>>=◌, update_user, ServerCall}
use beast_lounge.Lounge.Members.{
  insert_user, erase_user, complete, checked_user, require, do_join, do_leave, broadcast,
}
use beast_lounge.Lounge.Dispatch.{do_say, room_dispatch, call_server}
use beast_lounge.Lounge.Broadcast.{broadcast_lem}
use beast_lounge.Lounge.Links.{Linked}
use beast_lounge.Lounge.Membership.{insert_user-Linked, erase_user-Linked}
use beast_lounge.Lounge.Handling.{
  Leads, Leads-bind, Linked-same, Linked-SameBut, Holding, Leads-same, Leads-lift,
  checked_user-same, Leads-complete,
}

module _ ⦃B : Boost⦄ where
  open B use {Value, contains, object, string, integer}

  pub require-state : (msg : String) (r : Lounge × Bool) → (require msg r).1 ≡ r.0
  unfolding require
  require-state msg (s, true) = refl
  require-state msg (s, false) = refl

  -- Steps that may change the state, and what they need of it.
  pub Leads-any :
      {A : Type 0} (P : Lounge → Type 0) (m : Exec A)
      → ((s : Lounge) → P s → Linked (m s).1)
      → Leads P m (λ a. Linked)
  Leads-any P m keep = record { at_state = λ s p. (keep s p, λ a e. keep s p) }

  pub Leads-if :
      {A : Type 0} (P : Lounge → Type 0) (Q : A → Lounge → Type 0) (b : Bool) (m n : Exec A)
      → Leads P m Q
      → Leads P n Q
      → Leads P (if b then m else n) Q
  Leads-if P Q true m n lm ln = lm
  Leads-if P Q false m n lm ln = ln

  pub linked : (c : Channel) (s : Lounge) → Holding c s → Linked s
  linked c s h = h.0

  pub Leads-fail :
      (P : Lounge → Type 0) (e : RpcError)
      → ((s : Lounge) → P s → Linked s)
      → Leads P (fail e) (λ (a : Unit {0}). Linked)
  Leads-fail P e l = Leads-any P (fail e) (λ s p. unfold fail in l s p)

  pub Leads-do_join :
      (c : Channel) (rpc : RpcCall) → Leads (Holding c) (do_join c rpc) (λ a. Linked)
  unfolding do_join
  Leads-do_join c rpc =
      Leads-bind (Holding c) (λ a. Holding c) (λ a. Linked) (checked_user rpc) _
        (Leads-same (Holding c) (checked_user rpc) (linked c) (checked_user-same rpc))
        (λ a.
          Leads-bind (Holding c) (λ b. Linked) (λ b. Linked) _ _
            (Leads-any (Holding c) _ (λ s h.
              subst Linked (sym (require-state "Already in channel" (insert_user c rpc.user s)))
                (insert_user-Linked c rpc.user s h.0 h.1).0))
            (λ b. Leads-complete rpc))

  pub Leads-do_leave :
      (c : Channel) (rpc : RpcCall) → Leads (Holding c) (do_leave c rpc) (λ a. Linked)
  unfolding do_leave
  Leads-do_leave c rpc =
      Leads-bind (Holding c) (λ b. Linked) (λ b. Linked) _ _
        (Leads-any (Holding c) _ (λ s h.
          subst Linked (sym (require-state "Not in channel" (erase_user c rpc.user s)))
            (erase_user-Linked c rpc.user s h.0 h.1).0))
        (λ b. Leads-complete rpc)

  pub guard-same :
      (b : Bool) (e : RpcError) (s : Lounge)
      → let r : Outcome (Unit {0}) × Lounge = if b then pure tt s else fail e s in r.1 ≡ s
  unfolding pure fail
  guard-same true e s = refl
  guard-same false e s = refl

  abbrev pub said : Channel → RpcCall → String → Lounge → Value
  said c rpc text s = object (
      ("verb", string "say")
      ∷ ("cid", integer (pos c.cid))
      ∷ ("name", string c.name)
      ∷ ("user", string (s.users rpc.user).name)
      ∷ ("message", string text)
      ∷ [])

  pub Leads-do_say : (c : Channel) (rpc : RpcCall) → Leads (Holding c) (do_say c rpc) (λ a. Linked)
  unfolding do_say
  Leads-do_say c rpc =
      Leads-bind (Holding c) (λ a. Holding c) (λ a. Linked) (checked_user rpc) _
        (Leads-same (Holding c) (checked_user rpc) (linked c) (checked_user-same rpc))
        (λ a.
          Leads-bind (Holding c) (λ b. Holding c) (λ b. Linked) _ _
            (Leads-same (Holding c) _ (linked c)
              (λ s. guard-same (contains rpc.user c.users) (text_error "not in channel") s))
            (λ b.
              Leads-bind (Holding c) (λ t. Holding c) (λ t. Linked) _ _
                (Leads-lift (Holding c) (checked_string_at rpc.params "message") (linked c))
                (λ t.
                  Leads-bind (Holding c) (λ b. Linked) (λ b. Linked)
                    (λ s. (returned tt, broadcast c (said c rpc t s) s)) _
                    (Leads-any (Holding c) (λ s. (returned tt, broadcast c (said c rpc t s) s))
                      (λ s h. Linked-SameBut (broadcast_lem c (said c rpc t s) s).1 h.0))
                    (λ b. Leads-complete rpc))))

  pub Leads-room_dispatch :
      (c : Channel) (rpc : RpcCall) → Leads (Holding c) (room_dispatch c rpc) (λ a. Linked)
  unfolding room_dispatch
  Leads-room_dispatch c rpc =
      Leads-if (Holding c) (λ a. Linked) (str_eq rpc.method "say") _ _ (Leads-do_say c rpc)
        (Leads-if (Holding c) (λ a. Linked) (str_eq rpc.method "slash") _ _ (Leads-do_say c rpc)
          (Leads-fail (Holding c) _ (linked c)))

  pub Leads-call_server :
      (c : Channel) (call : ServerCall) → Leads (Holding c) (call_server call) (λ a. Linked)
  Leads-call_server c call =
      Leads-any (Holding c) (call_server call)
        (λ s h. unfold call_server in Linked-same s _ refl (λ v. refl) h.0)

  pub Leads-then_complete :
      (c : Channel) (m : Exec (Unit {0})) (rpc : RpcCall)
      → Leads (Holding c) m (λ a. Linked)
      → Leads (Holding c) (m >>= λ _. complete rpc) (λ a. Linked)
  Leads-then_complete c m rpc l =
      Leads-bind (Holding c) (λ a. Linked) (λ a. Linked) m _ l (λ a. Leads-complete rpc)

  pub if-same :
      (b : Bool) (e : RpcError) (s : Lounge)
      → let m : Exec (Unit {0}) = if b then fail e else pure tt in (m s).1 ≡ s
  if-same true e s = unfold fail in refl
  if-same false e s = unfold pure in refl

  pub named :
      (name : String) (u v : ℕ) (users : ℕ → User)
      → (update_user u (λ x. record x { name = name }) users v).channels ≡ (users v).channels
  named name u v users = elim (Bool-cases (u == v)) [ inl h ↦ rw h refl | inr h ↦ rw h refl ]

  abbrev pub named_state : String → ℕ → Lounge → Lounge
  named_state name u s = record s { users = update_user u (λ x. record x { name = name }) s.users }
