-- ===== src/Lounge/Membership.antt =====
-- insert and erase of a channel keep the two sides linked.
use beast_lounge.Base.{
  ℕ, ◌&&◌, ◌==◌, if◌then◌else◌, false, ◌≡◌, refl, sym, ap, ◌∙◌, true, false, not, some, Bool-cases,
  inl, inr,
}
use beast_lounge.Boost.{Boost}
use beast_lounge.Lounge.{Channel, Lounge, at, put_channel}
use beast_lounge.Lounge.Members.{
  broadcast, insert_user, erase_user, notice, user_on_insert, user_on_erase, on_insert, on_erase,
  notify,
}
use beast_lounge.Lounge.Broadcast.{
  SameBut, SameBut-refl, SameBut-trans, send-SameBut, broadcast_lem,
}
use beast_lounge.Lounge.Links.{
  has_user, Linked, Linked-update, at-put, on_insert_same, on_erase_same, at-of, insert_users,
  erase_users, insert_sets, erase_sets,
}

module _ ⦃B : Boost⦄ where
  open B use {Value, FlatSet, contains, insert, erase}

  pub notify-SameBut : (u : ℕ) (jv : Value) (s : Lounge) → SameBut s (notify u jv s)
  notify-SameBut u jv s = elim (Bool-cases (s.users u).connected) [
    | inl h ↦ rw h (send-SameBut u jv s)
    | inr h ↦ rw h (SameBut-refl s)
  ]

  agree :
      (c : Channel) (u : ℕ) (s : Lounge)
      → Linked s
      → at c.cid s ≡ some c
      → contains u c.users ≡ contains c.cid (s.users u).channels
  agree c u s l here = sym (ap (has_user u) here) ∙ l.links c.cid u

  -- Inserting a user into a channel of the list keeps the channels and the users linked; it answers
  -- whether the user was not in the channel, which is whether the channel was not in the user's set.
  pub insert_user-Linked :
      (c : Channel) (u : ℕ) (s : Lounge)
      → Linked s
      → at c.cid s ≡ some c
      → Linked (insert_user c u s).0
        × ((insert_user c u s).1 ≡ not (contains u c.users))
        × ((insert_user c u s).1 ≡ not (contains c.cid (s.users u).channels))
  unfolding insert_user
  insert_user-Linked c u s l here = elim (Bool-cases (contains u c.users)) [
    | inl old ↦ rw (old, insert_user) (l, refl, ap not (sym old ∙ agree c u s l here))
    | inr new ↦
        let c' : Channel = record c { users = insert u c.users } in
        let s₁ : Lounge = put_channel c' s in
        let s₂ : Lounge = broadcast c' (notice "join" c' (s.users u)) s₁ in
        let same : SameBut s₁ s₂ = (broadcast_lem c' (notice "join" c' (s.users u)) s₁).1 in
        let s₃ : Lounge = user_on_insert u c.cid s₂ in
        let last = on_insert_same c.class u s₃ in
        rw (new, insert_user)
          (
            Linked-update s (on_insert c.class u s₃) c c' u true l here refl
                (λ i.
                  at-of i s₁ (on_insert c.class u s₃) (last.0 ∙ same.same_channels)
                  ∙ at-put i s c c' here refl)
                (insert_users c u)
                (λ i v.
                  ap (λ users. contains i (users v).channels) last.1
                  ∙ insert_sets s₂.users (s.users v).channels u v i c.cid (same.same_set v)),
            refl,
            ap not (sym new ∙ agree c u s l here),
          )
  ]

  -- Erasing a user from a channel of the list keeps the channels and the users linked; it answers
  -- whether the user was in the channel, which is whether the channel was in the user's set.
  pub erase_user-Linked :
      (c : Channel) (u : ℕ) (s : Lounge)
      → Linked s
      → at c.cid s ≡ some c
      → Linked (erase_user c u s).0
        × ((erase_user c u s).1 ≡ contains u c.users)
        × ((erase_user c u s).1 ≡ contains c.cid (s.users u).channels)
  unfolding erase_user
  erase_user-Linked c u s l here = elim (Bool-cases (contains u c.users)) [
    | inl old ↦
        let c' : Channel = record c { users = erase u c.users } in
        let jv : Value = notice "leave" c' (s.users u) in
        let s₁ : Lounge = put_channel c' s in
        let s₂ : Lounge = notify u jv (broadcast c' jv s₁) in
        let same : SameBut s₁ s₂ =
          SameBut-trans (broadcast_lem c' jv s₁).1 (notify-SameBut u jv (broadcast c' jv s₁)) in
        let s₃ : Lounge = user_on_erase u c.cid s₂ in
        let last = on_erase_same c.class u s₃ in
        rw (old, erase_user)
          (
            Linked-update s (on_erase c.class u s₃) c c' u false l here refl
                (λ i.
                  at-of i s₁ (on_erase c.class u s₃) (last.0 ∙ same.same_channels)
                  ∙ at-put i s c c' here refl)
                (erase_users c u)
                (λ i v.
                  ap (λ users. contains i (users v).channels) last.1
                  ∙ erase_sets s₂.users (s.users v).channels u v i c.cid (same.same_set v)),
            refl,
            sym old ∙ agree c u s l here,
          )
    | inr new ↦ rw (new, erase_user) (l, refl, sym new ∙ agree c u s l here)
  ]

  -- The sets of the users after a user who was in the channel is erased from it.
  pub erase_user_sets :
      (c : Channel) (u : ℕ) (s : Lounge)
      → contains u c.users ≡ true
      → (i v : ℕ)
      → contains i ((erase_user c u s).0.users v).channels
        ≡ (if (v == u) && (c.cid == i) then false else contains i (s.users v).channels)
  unfolding erase_user
  erase_user_sets c u s old i v =
      let c' : Channel = record c { users = erase u c.users } in
      let jv : Value = notice "leave" c' (s.users u) in
      let s₁ : Lounge = put_channel c' s in
      let s₂ : Lounge = notify u jv (broadcast c' jv s₁) in
      let same : SameBut s₁ s₂ =
        SameBut-trans (broadcast_lem c' jv s₁).1 (notify-SameBut u jv (broadcast c' jv s₁)) in
      let s₃ : Lounge = user_on_erase u c.cid s₂ in
      rw old (
        ap (λ users. contains i (users v).channels) (on_erase_same c.class u s₃).1
        ∙ erase_sets s₂.users (s.users v).channels u v i c.cid (same.same_set v))
