-- ===== src/Lounge/Broadcast.antt =====
-- Who gets a message that is sent to a channel.
use beast_lounge.Base.{
  ℕ, ◌+◌, ◌≡◌, refl, sym, ap, ◌∙◌, true, false, ◌&&◌, List, [], ◌∷◌, ◌++◌, ◌==◌, if◌then◌else◌,
  arith, count, hit, replicate, replicate-add, Bool-cases, inl, inr, ==_iff,
}
use mathlib.Core.List.{append-nil, append_assoc}
use beast_lounge.Boost.{Boost}
use beast_lounge.Lounge.{User, Channel, Lounge, send}
use beast_lounge.Lounge.Members.{send_each, broadcast}

module _ ⦃B : Boost⦄ where
  open B use {Value, contains, elements, count-elements, FlatSet}

  -- Nothing differs but what the users were sent.
  pub record SameBut (s s' : Lounge) : Type 0 where
    pub same_channels : s'.channels ≡ s.channels
    pub same_tasks : s'.tasks ≡ s.tasks
    pub same_calls : s'.server_calls ≡ s.server_calls
    pub same_name : (v : ℕ) → (s'.users v).name ≡ (s.users v).name
    pub same_connected : (v : ℕ) → (s'.users v).connected ≡ (s.users v).connected
    pub same_set : (v : ℕ) → (s'.users v).channels ≡ (s.users v).channels

  pub SameBut-refl : (s : Lounge) → SameBut s s
  SameBut-refl s = record {
    same_channels = refl;
    same_tasks = refl;
    same_calls = refl;
    same_name = λ v. refl;
    same_connected = λ v. refl;
    same_set = λ v. refl;
  }

  pub SameBut-trans : {s t u : Lounge} → SameBut s t → SameBut t u → SameBut s u
  SameBut-trans a b = record {
    same_channels = b.same_channels ∙ a.same_channels;
    same_tasks = b.same_tasks ∙ a.same_tasks;
    same_calls = b.same_calls ∙ a.same_calls;
    same_name = λ v. b.same_name v ∙ a.same_name v;
    same_connected = λ v. b.same_connected v ∙ a.same_connected v;
    same_set = λ v. b.same_set v ∙ a.same_set v;
  }

  pub send-SameBut : (u : ℕ) (jv : Value) (s : Lounge) → SameBut s (send u jv s)
  unfolding send
  send-SameBut u jv s = record {
    same_channels = refl;
    same_tasks = refl;
    same_calls = refl;
    same_name = λ v. field u v (λ x. x.name) (s.users v) refl;
    same_connected = λ v. field u v (λ x. x.connected) (s.users v) refl;
    same_set = λ v. field u v (λ x. x.channels) (s.users v) refl;
  }
    where
      field :
          {A : Type 0} (u v : ℕ) (f : User → A) (x : User)
          → f (record x { sent = x.sent ++ jv ∷ [] }) ≡ f x
          → f (if u == v then record x { sent = x.sent ++ jv ∷ [] } else x) ≡ f x
      field u v f x e = elim (Bool-cases (u == v)) [ inl h ↦ rw h e | inr h ↦ rw h refl ]

  pub send_each-SameBut : (us : List ℕ) (jv : Value) (s : Lounge) → SameBut s (send_each us jv s)
  unfolding send_each
  send_each-SameBut [] jv s = SameBut-refl s
  send_each-SameBut (u ∷ us) jv s = elim (Bool-cases (s.users u).connected) [
    | inl h ↦ rw h (SameBut-trans (send-SameBut u jv s) (send_each-SameBut us jv (send u jv s)))
    | inr h ↦ rw h (send_each-SameBut us jv s)
  ]

  flip : (u v : ℕ) → (u == v) ≡ true → (v == u) ≡ true
  flip u v h = ground arith

  flip_false : (u v : ℕ) → (u == v) ≡ false → (v == u) ≡ false
  flip_false u v h = ground arith

  pub sent-send :
      (u v : ℕ) (jv : Value) (s : Lounge)
      → ((send u jv s).users v).sent ≡ (s.users v).sent ++ replicate (hit v u) jv
  unfolding send
  sent-send u v jv s = elim (Bool-cases (u == v)) [
    | inl h ↦ rw (h, flip u v h)
    | inr h ↦ rw (h, flip_false u v h) (sym (append-nil (s.users v).sent))
  ]

  -- How often a user stands in a list, if its pointer can be locked.
  abbrev reached : ℕ → List ℕ → Lounge → ℕ
  reached v us s = if (s.users v).connected then count v us else 0

  reached-cons :
      (u v : ℕ) (us : List ℕ) (s : Lounge)
      → reached v (u ∷ us) s ≡ (if (s.users u).connected then hit v u else 0) + reached v us s
  unfolding count
  reached-cons u v us s = elim (Bool-cases (v == u)) [
    | inl h ↦ ground (arith, ap (λ k. (s.users k).connected) ((==_iff v u).0 h))
    | inr h ↦ ground arith
  ]

  reached-send :
      (u v : ℕ) (us : List ℕ) (jv : Value) (s : Lounge)
      → reached v us (send u jv s) ≡ reached v us s
  reached-send u v us jv s =
      ap (λ b. if b then count v us else 0) ((send-SameBut u jv s).same_connected v)

  no_more : (v : ℕ) (s : Lounge) → reached v [] s ≡ 0
  unfolding count
  no_more v s = ground arith

  sent-send_each :
      (us : List ℕ) (v : ℕ) (jv : Value) (s : Lounge)
      → ((send_each us jv s).users v).sent ≡ (s.users v).sent ++ replicate (reached v us s) jv
  unfolding send_each
  sent-send_each [] v jv s =
      sym (ap (λ k. (s.users v).sent ++ replicate k jv) (no_more v s) ∙ append-nil (s.users v).sent)
  sent-send_each (u ∷ us) v jv s = elim (Bool-cases (s.users u).connected) [
    | inl c ↦
        rw (c, send_each)
          (sent-send_each us v jv (send u jv s)
            ∙ ap (λ k. ((send u jv s).users v).sent ++ replicate k jv) (reached-send u v us jv s)
            ∙ ap (λ l. l ++ replicate (reached v us s) jv) (sent-send u v jv s)
            ∙ append_assoc (s.users v).sent (replicate (hit v u) jv) (replicate (reached v us s) jv)
            ∙ ap (λ l. (s.users v).sent ++ l) (sym (replicate-add (hit v u) (reached v us s) jv))
            ∙ ap (λ k. (s.users v).sent ++ replicate k jv)
                (sym (reached-cons u v us s ∙ rw c refl)))
    | inr c ↦
        rw (c, send_each)
          (sent-send_each us v jv s
            ∙ ap (λ k. (s.users v).sent ++ replicate k jv)
                (sym (reached-cons u v us s ∙ rw c (omega arith))))
  ]

  -- A message sent to a channel reaches each user of the channel whose weak pointer can be locked
  -- exactly once, behind what the user was sent before, and no other user; it changes nothing else.
  pub broadcast_lem :
      (c : Channel) (jv : Value) (s : Lounge)
      → ((v : ℕ)
          → ((broadcast c jv s).users v).sent
            ≡ (s.users v).sent
              ++ (if (s.users v).connected && contains v c.users then jv ∷ [] else []))
        × SameBut s (broadcast c jv s)
  unfolding broadcast
  broadcast_lem c jv s = (
    λ v. sent-send_each (elements c.users) v jv s ∙ ap (λ l. (s.users v).sent ++ l) (once v),
    send_each-SameBut (elements c.users) jv s,
  )
    where
      once :
          (v : ℕ)
          → replicate (reached v (elements c.users) s) jv
            ≡ (if (s.users v).connected && contains v c.users then jv ∷ [] else [])
      once v = rw (count-elements v c.users) (elim (Bool-cases (s.users v).connected) [
        | inl k ↦
            rw k (elim (Bool-cases (contains v c.users)) [ inl m ↦ rw m refl | inr m ↦ rw m refl ])
        | inr k ↦ rw k refl
      ])
