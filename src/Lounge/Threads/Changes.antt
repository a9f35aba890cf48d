-- ===== src/Lounge/Threads/Changes.antt =====
-- What insert_user and erase_user make of the channels, the users and the tasks.
use beast_lounge.Base.{
  ℕ, ◌≡◌, refl, sym, ap, ◌∙◌, Bool, true, false, ◌&&◌, List, [], ◌∷◌, ◌++◌, some, ◌==◌,
  if◌then◌else◌, replicate, hit, Bool-cases, inl, inr, ==_iff,
}
use Prim.Native.String.{String}
use mathlib.Core.List.{append-nil, append_assoc}
use beast_lounge.Base.Int.{pos}
use beast_lounge.Boost.{Boost}
use beast_lounge.Lounge.{
  ChannelKind, system, room, table, User, Task, do_insert, do_erase, Channel, Lounge, update_user,
  at, put_channel,
}
use beast_lounge.Lounge.Members.{
  broadcast, notice, notify, insert_user, erase_user, user_on_insert, user_on_erase, on_insert,
  on_erase,
}
use beast_lounge.Lounge.Broadcast.{SameBut, SameBut-trans, broadcast_lem, sent-send}
use beast_lounge.Lounge.Membership.{notify-SameBut}
use beast_lounge.Lounge.Links.{
  at-put, at-of, on_insert_same, on_erase_same, insert_sets, erase_sets,
}

module _ ⦃B : Boost⦄ where
  open B use {Value, FlatSet, contains, insert, erase, contains-erase, object, integer, string}

  -- What is told of a user who joins or leaves
  abbrev pub news : String → Channel → User → Value
  news verb c x = object (
      ("cid", integer (pos c.cid))
      ∷ ("verb", string verb)
      ∷ ("name", string c.name)
      ∷ ("user", string x.name)
      ∷ [])

  -- The channel has other users; the user has the channel or not; those in `heard` who are connected get
  -- the message once, behind what they were sent; these tasks are posted.
  pub record Changed (c : Channel) (users heard : FlatSet) (u : ℕ) (b : Bool) (jv : Value)
      (posts : List Task) (s s' : Lounge) : Type 0 where
    placed : (i : ℕ) → at i s' ≡ (if c.cid == i then some (record c { users = users }) else at i s)
    sets :
        (i v : ℕ)
        → contains i (s'.users v).channels
          ≡ (if (v == u) && (c.cid == i) then b else contains i (s.users v).channels)
    told :
        (v : ℕ)
        → (s'.users v).sent
          ≡ (s.users v).sent ++ (if (s.users v).connected && contains v heard then jv ∷ [] else [])
    same_name : (v : ℕ) → (s'.users v).name ≡ (s.users v).name
    same_connected : (v : ℕ) → (s'.users v).connected ≡ (s.users v).connected
    posted : s'.tasks ≡ s.tasks ++ posts
    same_calls : s'.server_calls ≡ s.server_calls

  -- Only a table posts a task.
  abbrev pub for_table : ChannelKind → Task → List Task
  for_table table t = t ∷ []
  for_table system t = []
  for_table room t = []

  on_insert-tasks :
      (k : ChannelKind) (u : ℕ) (s : Lounge)
      → ((on_insert k u s).tasks ≡ s.tasks ++ for_table k (do_insert u))
        × ((on_insert k u s).server_calls ≡ s.server_calls)
  unfolding on_insert
  on_insert-tasks system u s = (sym (append-nil s.tasks), refl)
  on_insert-tasks room u s = (sym (append-nil s.tasks), refl)
  on_insert-tasks table u s = (refl, refl)

  on_erase-tasks :
      (k : ChannelKind) (u : ℕ) (s : Lounge)
      → ((on_erase k u s).tasks ≡ s.tasks ++ for_table k (do_erase u))
        × ((on_erase k u s).server_calls ≡ s.server_calls)
  unfolding on_erase
  on_erase-tasks system u s = (sym (append-nil s.tasks), refl)
  on_erase-tasks room u s = (sym (append-nil s.tasks), refl)
  on_erase-tasks table u s = (refl, refl)

  field :
      {A : Type 0} (u v : ℕ) (k : User → User) (f : ℕ → User) (p : User → A)
      → ((x : User) → p (k x) ≡ p x)
      → p (update_user u k f v) ≡ p (f v)
  field u v k f p e = elim (Bool-cases (u == v)) [ inl h ↦ rw h (e (f v)) | inr h ↦ rw h refl ]

  pub insert_user-Changed :
      (c : Channel) (u : ℕ) (s : Lounge)
      → at c.cid s ≡ some c
      → contains u c.users ≡ false
      → ((insert_user c u s).1 ≡ true)
        × Changed c
            (insert u c.users)
            (insert u c.users)
            u
            true
            (news "join" c (s.users u))
            (for_table c.class (do_insert u))
            s
            (insert_user c u s).0
  unfolding insert_user notice
  insert_user-Changed c u s here new =
      let c' : Channel = record c { users = insert u c.users } in
      let jv : Value = news "join" c (s.users u) in
      let s₁ : Lounge = put_channel c' s in
      let s₂ : Lounge = broadcast c' jv s₁ in
      let all = broadcast_lem c' jv s₁ in
      let s₃ : Lounge = user_on_insert u c.cid s₂ in
      let k = λ (x : User). record x { channels = insert c.cid x.channels } in
      let last = on_insert_same c.class u s₃ in
      let end = on_insert-tasks c.class u s₃ in
      rw (new, insert_user)
        (
          refl,
          record {
            placed = λ i.
                at-of i s₁ (on_insert c.class u s₃) (last.0 ∙ all.1.same_channels)
                ∙ at-put i s c c' here refl;
            sets = λ i v.
                ap (λ users. contains i (users v).channels) last.1
                ∙ insert_sets s₂.users (s.users v).channels u v i c.cid (all.1.same_set v);
            told = λ v.
                ap (λ users. (users v).sent) last.1
                ∙ field u v k s₂.users (λ x. x.sent) (λ x. refl)
                ∙ all.0 v;
            same_name = λ v.
                ap (λ users. (users v).name) last.1
                ∙ field u v k s₂.users (λ x. x.name) (λ x. refl)
                ∙ all.1.same_name v;
            same_connected = λ v.
                ap (λ users. (users v).connected) last.1
                ∙ field u v k s₂.users (λ x. x.connected) (λ x. refl)
                ∙ all.1.same_connected v;
            posted = end.0 ∙ ap (λ ts. ts ++ for_table c.class (do_insert u)) all.1.same_tasks;
            same_calls = end.1 ∙ all.1.same_calls;
          },
        )

  sent-notify :
      (u v : ℕ) (jv : Value) (s : Lounge)
      → ((notify u jv s).users v).sent
        ≡ (s.users v).sent ++ replicate (if (s.users u).connected then hit v u else 0) jv
  sent-notify u v jv s = elim (Bool-cases (s.users u).connected) [
    | inl c ↦ rw c (sent-send u v jv s)
    | inr c ↦ rw c (sym (append-nil (s.users v).sent))
  ]

  -- Those who stay in the channel are told once, and so is the one who leaves.
  leavers_told :
      (c : Channel) (u v : ℕ) (jv : Value) (s : Lounge)
      → contains u c.users ≡ true
      → (if (s.users v).connected && contains v (erase u c.users) then jv ∷ [] else [])
          ++ replicate (if (s.users u).connected then hit v u else 0) jv
        ≡ (if (s.users v).connected && contains v c.users then jv ∷ [] else [])
  leavers_told c u v jv s old = elim (Bool-cases (v == u)) [
    | inl h ↦
        let same : u ≡ v = sym ((==_iff v u).0 h) in
        let connected = ap (λ w. (s.users w).connected) same in
        let within : contains v c.users ≡ true = ap (λ w. contains w c.users) (sym same) ∙ old in
        elim (Bool-cases (s.users v).connected) [
          | inl k ↦ rw (connected, contains-erase, h, k, within) refl
          | inr k ↦ rw (connected, k) refl
        ]
    | inr h ↦ elim (Bool-cases (s.users u).connected) [
      | inl k ↦ rw (contains-erase, h, k) (append-nil _)
      | inr k ↦ rw (contains-erase, h, k) (append-nil _)
    ]
  ]

  pub erase_user-Changed :
      (c : Channel) (u : ℕ) (s : Lounge)
      → at c.cid s ≡ some c
      → contains u c.users ≡ true
      → ((erase_user c u s).1 ≡ true)
        × Changed c
            (erase u c.users)
            c.users
            u
            false
            (news "leave" c (s.users u))
            (for_table c.class (do_erase u))
            s
            (erase_user c u s).0
  unfolding erase_user notice
  erase_user-Changed c u s here old =
      let c' : Channel = record c { users = erase u c.users } in
      let jv : Value = news "leave" c (s.users u) in
      let s₁ : Lounge = put_channel c' s in
      let all = broadcast_lem c' jv s₁ in
      let s₂ : Lounge = notify u jv (broadcast c' jv s₁) in
      let same : SameBut s₁ s₂ = SameBut-trans all.1 (notify-SameBut u jv (broadcast c' jv s₁)) in
      let s₃ : Lounge = user_on_erase u c.cid s₂ in
      let k = λ (x : User). record x { channels = erase c.cid x.channels } in
      let last = on_erase_same c.class u s₃ in
      let end = on_erase-tasks c.class u s₃ in
      rw (old, erase_user)
        (
          refl,
          record {
            placed = λ i.
                at-of i s₁ (on_erase c.class u s₃) (last.0 ∙ same.same_channels)
                ∙ at-put i s c c' here refl;
            sets = λ i v.
                ap (λ users. contains i (users v).channels) last.1
                ∙ erase_sets s₂.users (s.users v).channels u v i c.cid (same.same_set v);
            told = λ v.
                ap (λ users. (users v).sent) last.1
                ∙ field u v k s₂.users (λ x. x.sent) (λ x. refl)
                ∙ sent-notify u v jv (broadcast c' jv s₁)
                ∙ ap
                    (λ b.
                      ((broadcast c' jv s₁).users v).sent
                      ++ replicate (if b then hit v u else 0) jv)
                    (all.1.same_connected u)
                ∙ ap (λ l. l ++ replicate (if (s.users u).connected then hit v u else 0) jv)
                    (all.0 v)
                ∙ append_assoc (s.users v).sent _ _
                ∙ ap (λ l. (s.users v).sent ++ l) (leavers_told c u v jv s old);
            same_name = λ v.
                ap (λ users. (users v).name) last.1
                ∙ field u v k s₂.users (λ x. x.name) (λ x. refl)
                ∙ same.same_name v;
            same_connected = λ v.
                ap (λ users. (users v).connected) last.1
                ∙ field u v k s₂.users (λ x. x.connected) (λ x. refl)
                ∙ same.same_connected v;
            posted = end.0 ∙ ap (λ ts. ts ++ for_table c.class (do_erase u)) same.same_tasks;
            same_calls = end.1 ∙ same.same_calls;
          },
        )
