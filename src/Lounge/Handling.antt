-- ===== src/Lounge/Handling.antt =====
-- Rules for handlers that keep the channels and the users linked.
use text.Mathlib.Text.{◌==◌ as str_eq}
use beast_lounge.Base.{ℕ, ◌≡◌, refl, sym, ap, ◌∙◌, subst, some, Bool-cases, inl, inr, Option-cases}
use beast_lounge.Boost.{Boost}
use beast_lounge.Lounge.Dispatch.{complete_error}
use beast_lounge.Rpc.{RpcError, RpcCall}
use beast_lounge.Rpc.Checked.{Outcome, returned, thrown, escaped}
use beast_lounge.Lounge.{Channel, Lounge, Exec, lift, ◌>>=◌, at}
use beast_lounge.Lounge.Members.{complete, checked_user}
use beast_lounge.Lounge.Broadcast.{SameBut, SameBut-refl, send-SameBut}
use beast_lounge.Lounge.Links.{has_user, Linked, at-of}

module _ ⦃B : Boost⦄ where
  open B use {Value, contains}

  -- From states of one property a handler leads to states of another, if it returns, and in any
  -- case keeps the links.
  pub record Leads {A : Type 0} (P : Lounge → Type 0) (m : Exec A) (Q : A → Lounge → Type 0)
      : Type 0 where
    pub at_state :
        (s : Lounge) → P s → Linked (m s).1 × ((a : A) → (m s).0 ≡ returned a → Q a (m s).1)

  pub Leads-bind :
      {A C : Type 0} (P : Lounge → Type 0) (Q : A → Lounge → Type 0) (R : C → Lounge → Type 0)
      (m : Exec A) (f : A → Exec C)
      → Leads P m Q
      → ((a : A) → Leads (Q a) (f a) R)
      → Leads P (m >>= f) R
  unfolding ◌>>=◌
  Leads-bind P Q R m f lm lf = record { at_state = λ s p. go s p (m s).0 refl }
    where
      go :
          (s : Lounge)
          → P s
          → (o : Outcome _) → (m s).0 ≡ o
          → Linked ((m >>= f) s).1 × ((c : _) → ((m >>= f) s).0 ≡ returned c → R c ((m >>= f) s).1)
      go s p (returned a) e = rw (e, ◌>>=◌) ((lf a).at_state (m s).1 ((lm.at_state s p).1 a e))
      go s p (thrown x) e = rw (e, ◌>>=◌) ((lm.at_state s p).0, λ c h. cc)
      go s p escaped e = rw (e, ◌>>=◌) ((lm.at_state s p).0, λ c h. cc)

  -- The links depend on the channels and the sets of the users.
  pub Linked-same :
      (s s' : Lounge)
      → s'.channels ≡ s.channels
      → ((v : ℕ) → (s'.users v).channels ≡ (s.users v).channels)
      → Linked s
      → Linked s'
  Linked-same s s' channels sets l = record {
    cids = λ i c h. l.cids i c (sym (at-of i s s' channels) ∙ h);
    links = λ i v.
        ap (has_user v) (at-of i s s' channels) ∙ l.links i v ∙ ap (contains i) (sym (sets v));
  }

  pub Linked-SameBut : {s s' : Lounge} → SameBut s s' → Linked s → Linked s'
  Linked-SameBut {s} {s'} e l = Linked-same s s' e.same_channels e.same_set l

  pub complete-SameBut : (rpc : RpcCall) (s : Lounge) → SameBut s (complete rpc s).1
  unfolding complete
  complete-SameBut rpc s = elim (Option-cases rpc.id) [
    | inl h ↦ rw (h, complete) (SameBut-refl s)
    | inr (id, h) ↦ rw (h, complete) (send-SameBut rpc.user _ s)
  ]

  -- The channel that the call was dispatched to is still in the list as it was read.
  abbrev pub Holding : Channel → Lounge → Type 0
  Holding c s = Linked s × (at c.cid s ≡ some c)

  -- A step that leaves the state alone, whether it returns or throws.
  pub Leads-same :
      {A : Type 0} (P : Lounge → Type 0) (m : Exec A)
      → ((s : Lounge) → P s → Linked s)
      → ((s : Lounge) → (m s).1 ≡ s)
      → Leads P m (λ a. P)
  Leads-same P m l same = record {
    at_state = λ s p. (subst Linked (sym (same s)) (l s p), λ a e. subst P (sym (same s)) p);
  }

  pub Leads-lift :
      {A : Type 0} (P : Lounge → Type 0) (o : Outcome A)
      → ((s : Lounge) → P s → Linked s)
      → Leads P (lift o) (λ a. P)
  Leads-lift P o l = Leads-same P (lift o) l (λ s. unfold lift in refl)

  pub checked_user-same : (rpc : RpcCall) (s : Lounge) → (checked_user rpc s).1 ≡ s
  unfolding checked_user
  checked_user-same rpc s = elim (Bool-cases (str_eq (s.users rpc.user).name "")) [
    | inl h ↦ rw h refl
    | inr h ↦ rw h refl
  ]

  pub Leads-complete : (rpc : RpcCall) → Leads Linked (complete rpc) (λ a. Linked)
  Leads-complete rpc = record {
    at_state = λ s l. let k = Linked-SameBut (complete-SameBut rpc s) l in (k, λ a e. k);
  }

  pub complete_error-SameBut :
      (rpc : RpcCall) (e : RpcError) (s : Lounge) → SameBut s (complete_error rpc e s)
  unfolding complete_error
  complete_error-SameBut rpc e s = elim (Option-cases rpc.id) [
    | inl h ↦ rw (h, complete_error) (SameBut-refl s)
    | inr (id, h) ↦ rw (h, complete_error) (send-SameBut rpc.user _ s)
  ]
