-- ===== src/Lounge/Others.antt =====
-- What the handlers of one user's message do to the other users: server/core/channel.cpp, room.cpp,
-- system.cpp and channel_list.cpp.
pub mod Handlers
pub mod Messages
use beast_lounge.Base.{
  ℕ, ◌≡◌, refl, sym, ap, subst, ◌∙◌, true, false, List, [], ◌∷◌, ◌++◌, ◌==◌, if◌then◌else◌, arith,
  Bool-cases, inl, inr, ==_iff,
}
use mathlib.Core.List.{append-nil, append_assoc}
use beast_lounge.Boost.{Boost}
use beast_lounge.Lounge.{User, Channel, Lounge, update_user, send, put_channel}
use beast_lounge.Lounge.Members.{
  send_each, broadcast, notify, insert_user, erase_user, user_on_insert, user_on_erase, notice,
  on_insert, on_erase,
}
use beast_lounge.Lounge.Links.{on_insert_same, on_erase_same}

module _ ⦃B : Boost⦄ where
  open B use {Value, contains, insert, erase, elements}

  -- From `f` to `g`, users other than `u` keep their names and channels, all stay connected or not, and
  -- what was sent to anyone stays sent.
  pub record Apart (u : ℕ) (f g : ℕ → User) : Type 0 where
    pub same_connected : (v : ℕ) → (g v).connected ≡ (f v).connected
    pub same_name : (v : ℕ) → (v == u) ≡ false → (g v).name ≡ (f v).name
    pub same_set : (v : ℕ) → (v == u) ≡ false → (g v).channels ≡ (f v).channels
    pub grows : (v : ℕ) → (more : List Value) × ((g v).sent ≡ (f v).sent ++ more)

  pub Apart-refl : (u : ℕ) (f : ℕ → User) → Apart u f f
  Apart-refl u f = record {
    same_connected = λ v. refl;
    same_name = λ v h. refl;
    same_set = λ v h. refl;
    grows = λ v. ([], sym (append-nil (f v).sent));
  }

  pub Apart-trans : {u : ℕ} {f g h : ℕ → User} → Apart u f g → Apart u g h → Apart u f h
  Apart-trans {u} {f} {g} {h} a b = record {
    same_connected = λ v. b.same_connected v ∙ a.same_connected v;
    same_name = λ v e. b.same_name v e ∙ a.same_name v e;
    same_set = λ v e. b.same_set v e ∙ a.same_set v e;
    grows = λ v.
        let (more, e) = a.grows v in
        let (more', e') = b.grows v in
        (more ++ more', e' ∙ ap (λ xs. xs ++ more') e ∙ append_assoc (f v).sent more more');
  }

  -- One user changes.
  update_cases :
      {A : Type 0} (w v : ℕ) (k : User → User) (f : ℕ → User) (p : User → A)
      → p (k (f v)) ≡ p (f v)
      → p (update_user w k f v) ≡ p (f v)
  update_cases w v k f p e = elim (Bool-cases (w == v)) [ inl h ↦ rw h e | inr h ↦ rw h refl ]

  update_other :
      {A : Type 0} (u v : ℕ) (k : User → User) (f : ℕ → User) (p : User → A)
      → (v == u) ≡ false
      → p (update_user u k f v) ≡ p (f v)
  update_other u v k f p h = let e : (u == v) ≡ false = ground arith in rw e refl

  pub Apart-own :
      (u : ℕ) (k : User → User) (f : ℕ → User)
      → ((x : User) → (k x).connected ≡ x.connected)
      → ((x : User) → (k x).sent ≡ x.sent)
      → Apart u f (update_user u k f)
  Apart-own u k f connected sent = record {
    same_connected = λ v. update_cases u v k f (λ x. x.connected) (connected (f v));
    same_name = λ v h. update_other u v k f (λ x. x.name) h;
    same_set = λ v h. update_other u v k f (λ x. x.channels) h;
    grows =
        λ v. ([], update_cases u v k f (λ x. x.sent) (sent (f v)) ∙ sym (append-nil (f v).sent));
  }

  pub Apart-send : (u w : ℕ) (jv : Value) (s : Lounge) → Apart u s.users (send w jv s).users
  unfolding send
  Apart-send u w jv s = record {
    same_connected = λ v.
        update_cases w v (λ x. record x { sent = x.sent ++ jv ∷ [] }) s.users (λ x. x.connected)
          refl;
    same_name = λ v h.
        update_cases w v (λ x. record x { sent = x.sent ++ jv ∷ [] }) s.users (λ x. x.name) refl;
    same_set = λ v h.
        update_cases w v (λ x. record x { sent = x.sent ++ jv ∷ [] }) s.users (λ x. x.channels)
          refl;
    grows = λ v. elim (Bool-cases (w == v)) [
      | inl h ↦ (jv ∷ [], rw h refl)
      | inr h ↦ ([], rw h (sym (append-nil (s.users v).sent)))
    ];
  }

  pub Apart-notify : (u w : ℕ) (jv : Value) (s : Lounge) → Apart u s.users (notify w jv s).users
  Apart-notify u w jv s = elim (Bool-cases (s.users w).connected) [
    | inl h ↦ rw h (Apart-send u w jv s)
    | inr h ↦ rw h (Apart-refl u s.users)
  ]

  pub Apart-send_each :
      (u : ℕ) (ws : List ℕ) (jv : Value) (s : Lounge) → Apart u s.users (send_each ws jv s).users
  unfolding send_each
  Apart-send_each u [] jv s = Apart-refl u s.users
  Apart-send_each u (w ∷ ws) jv s =
      Apart-trans (Apart-notify u w jv s) (Apart-send_each u ws jv (notify w jv s))

  pub Apart-broadcast :
      (u : ℕ) (c : Channel) (jv : Value) (s : Lounge) → Apart u s.users (broadcast c jv s).users
  unfolding broadcast
  Apart-broadcast u c jv s = Apart-send_each u (elements c.users) jv s

  pub Apart-same : {u : ℕ} {f g h : ℕ → User} → Apart u f g → h ≡ g → Apart u f h
  Apart-same {u} {f} a e = subst (λ g. Apart u f g) (sym e) a

  pub Apart-insert_user :
      (c : Channel) (u : ℕ) (s : Lounge) → Apart u s.users (insert_user c u s).0.users
  unfolding insert_user
  Apart-insert_user c u s = elim (Bool-cases (contains u c.users)) [
    | inl old ↦ rw (old, insert_user) (Apart-refl u s.users)
    | inr new ↦
        let c' : Channel = record c { users = insert u c.users } in
        let s₁ : Lounge = broadcast c' (notice "join" c' (s.users u)) (put_channel c' s) in
        rw (new, insert_user)
          (Apart-same
            (Apart-trans (Apart-broadcast u c' (notice "join" c' (s.users u)) (put_channel c' s)) (
              Apart-own u (λ x. record x { channels = insert c.cid x.channels }) s₁.users
                (λ x. refl) (λ x. refl)))
            (on_insert_same c.class u (user_on_insert u c.cid s₁)).1)
  ]

  pub Apart-erase_user :
      (c : Channel) (u : ℕ) (s : Lounge) → Apart u s.users (erase_user c u s).0.users
  unfolding erase_user
  Apart-erase_user c u s = elim (Bool-cases (contains u c.users)) [
    | inr new ↦ rw (new, erase_user) (Apart-refl u s.users)
    | inl old ↦
        let c' : Channel = record c { users = erase u c.users } in
        let jv : Value = notice "leave" c' (s.users u) in
        let s₁ : Lounge = broadcast c' jv (put_channel c' s) in
        rw (old, erase_user)
          (Apart-same
            (Apart-trans
              (Apart-trans (Apart-broadcast u c' jv (put_channel c' s)) (Apart-notify u u jv s₁))
              (Apart-own u (λ x. record x { channels = erase c.cid x.channels })
                (notify u jv s₁).users (λ x. refl) (λ x. refl)))
            (on_erase_same c.class u (user_on_erase u c.cid (notify u jv s₁))).1)
  ]
