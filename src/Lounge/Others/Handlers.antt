-- ===== src/Lounge/Others/Handlers.antt =====
-- The handlers of a message, for the users who did not send it.
use Prim.Native.String.{String, len}
use text.Mathlib.Text.{◌==◌ as str_eq}
use beast_lounge.Base.{
  ℕ, ◌≡◌, refl, ap, Bool, true, false, ltb, if◌then◌else◌, inl, inr, Option-cases,
}
use beast_lounge.Boost.{Boost}
use beast_lounge.Rpc.{RpcCall, RpcError, text_error}
use beast_lounge.Rpc.Checked.{Outcome, returned, thrown, escaped, checked_string_at}
use beast_lounge.Lounge.{Channel, Lounge, Exec, pure, fail, lift, ◌>>=◌}
use beast_lounge.Lounge.Members.{
  insert_user, erase_user, complete, checked_user, do_join, do_leave, broadcast,
}
use beast_lounge.Lounge.Dispatch.{do_say, do_identify}
use beast_lounge.Lounge.Handling.{checked_user-same}
use beast_lounge.Lounge.Leading.{require-state, guard-same, said, named_state}
use beast_lounge.Lounge.Others.{
  Apart, Apart-refl, Apart-trans, Apart-own, Apart-send, Apart-broadcast, Apart-same,
  Apart-insert_user, Apart-erase_user,
}

module _ ⦃B : Boost⦄ where
  open B use {Value, contains}

  -- A handler on behalf of `u`, however it ends.
  pub record Keeps {A : Type 0} (u : ℕ) (m : Exec A) : Type 0 where
    pub at_state : (s : Lounge) → Apart u s.users (m s).1.users

  pub Keeps-bind :
      {A C : Type 0} {u : ℕ} (m : Exec A) (f : A → Exec C)
      → Keeps u m
      → ((a : A) → Keeps u (f a))
      → Keeps u (m >>= f)
  unfolding ◌>>=◌
  Keeps-bind {u = u} m f km kf = record { at_state = λ s. go s (m s).0 refl }
    where
      go : (s : Lounge) (o : Outcome _) → (m s).0 ≡ o → Apart u s.users ((m >>= f) s).1.users
      go s (returned a) e = rw (e, ◌>>=◌) (Apart-trans (km.at_state s) ((kf a).at_state (m s).1))
      go s (thrown x) e = rw (e, ◌>>=◌) (km.at_state s)
      go s escaped e = rw (e, ◌>>=◌) (km.at_state s)

  pub Keeps-same :
      {A : Type 0} {u : ℕ} (m : Exec A) → ((s : Lounge) → (m s).1.users ≡ s.users) → Keeps u m
  Keeps-same {u = u} m same = record { at_state = λ s. Apart-same (Apart-refl u s.users) (same s) }

  pub Keeps-lift : {A : Type 0} {u : ℕ} (o : Outcome A) → Keeps u (lift o)
  Keeps-lift o = Keeps-same (lift o) (λ s. unfold lift in refl)

  pub Keeps-fail : {u : ℕ} (e : RpcError) → Keeps {A = Unit {0}} u (fail e)
  Keeps-fail e = Keeps-same (fail e) (λ s. unfold fail in refl)

  pub Keeps-if :
      {A : Type 0} {u : ℕ} (b : Bool) (m n : Exec A)
      → Keeps u m
      → Keeps u n
      → Keeps u (if b then m else n)
  Keeps-if true m n km kn = km
  Keeps-if false m n km kn = kn

  pub Keeps-complete : {u : ℕ} (rpc : RpcCall) → Keeps u (complete rpc)
  unfolding complete
  Keeps-complete {u} rpc = record {
    at_state = λ s. elim (Option-cases rpc.id) [
      | inl h ↦ rw (h, complete) (Apart-refl u s.users)
      | inr (id, h) ↦ rw (h, complete) (Apart-send u rpc.user _ s)
    ];
  }

  Keeps-checked_user : {u : ℕ} (rpc : RpcCall) → Keeps u (checked_user rpc)
  Keeps-checked_user rpc =
      Keeps-same (checked_user rpc) (λ s. ap (λ t. t.users) (checked_user-same rpc s))

  pub Keeps-do_join : (c : Channel) (rpc : RpcCall) → Keeps rpc.user (do_join c rpc)
  unfolding do_join
  Keeps-do_join c rpc = Keeps-bind _ _ (Keeps-checked_user rpc) (λ a.
      Keeps-bind _ _
        (record {
          at_state = λ s.
              Apart-same (Apart-insert_user c rpc.user s)
                (ap (λ t. t.users) (require-state "Already in channel" (insert_user c rpc.user s)));
        })
        (λ b. Keeps-complete rpc))

  pub Keeps-do_leave : (c : Channel) (rpc : RpcCall) → Keeps rpc.user (do_leave c rpc)
  unfolding do_leave
  Keeps-do_leave c rpc =
      Keeps-bind _ _
        (record {
          at_state = λ s.
              Apart-same (Apart-erase_user c rpc.user s)
                (ap (λ t. t.users) (require-state "Not in channel" (erase_user c rpc.user s)));
        })
        (λ b. Keeps-complete rpc)

  -- A test of the state, which may throw.
  Keeps-guard :
      {u : ℕ} (b : Lounge → Bool) (e : RpcError)
      → Keeps u (λ s. if b s then pure tt s else fail e s)
  Keeps-guard b e = Keeps-same _ (λ s. ap (λ t. t.users) (guard-same (b s) e s))

  Keeps-limit :
      {u : ℕ} (b : Bool) (e : RpcError) → Keeps {A = Unit {0}} u (if b then fail e else pure tt)
  Keeps-limit b e =
      Keeps-if b (fail e) (pure tt) (Keeps-fail e) (Keeps-same (pure tt) (λ s. unfold pure in refl))

  pub Keeps-then : {u : ℕ} (m n : Exec (Unit {0})) → Keeps u m → Keeps u n → Keeps u (m >>= λ _. n)
  Keeps-then m n km kn = Keeps-bind m (λ _. n) km (λ a. kn)

  Keeps-tell :
      {u : ℕ} (c : Channel) (jv : Lounge → Value)
      → Keeps {A = Unit {0}} u (λ s. (returned tt, broadcast c (jv s) s))
  Keeps-tell {u} c jv = record { at_state = λ s. Apart-broadcast u c (jv s) s }

  pub Keeps-do_say : (c : Channel) (rpc : RpcCall) → Keeps rpc.user (do_say c rpc)
  unfolding do_say
  Keeps-do_say c rpc = Keeps-then _ _ (Keeps-checked_user rpc) (
      Keeps-then _ _ (Keeps-guard (λ s. contains rpc.user c.users) (text_error "not in channel")) (
        Keeps-bind _ _ (Keeps-lift (checked_string_at rpc.params "message"))
          (λ text. Keeps-then _ _ (Keeps-tell c (said c rpc text)) (Keeps-complete rpc))))

  Keeps-names :
      (c : Channel) (u : ℕ) (name : String)
      → Keeps {A = Unit {0}} u (λ s. (returned tt, (insert_user c u (named_state name u s)).0))
  Keeps-names c u name = record {
    at_state = λ s.
        Apart-trans (Apart-own u (λ x. record x { name = name }) s.users (λ x. refl) (λ x. refl))
          (Apart-insert_user c u (named_state name u s));
  }

  pub Keeps-do_identify : (c : Channel) (rpc : RpcCall) → Keeps rpc.user (do_identify c rpc)
  unfolding do_identify
  Keeps-do_identify c rpc =
      Keeps-bind _ _ (Keeps-lift (checked_string_at rpc.params "name")) (λ name.
        Keeps-then _ _ (Keeps-limit (ltb 20 (len name)) (text_error "Invalid \"name\": too long")) (
          Keeps-then _ _
            (Keeps-guard (λ s. str_eq (s.users rpc.user).name "")
              (text_error "Identity is already set"))
            (Keeps-then _ _ (Keeps-names c rpc.user name) (Keeps-complete rpc))))
