-- ===== src/Lounge/Links.antt =====
-- A channel has a user exactly if the user has the channel.
use beast_lounge.Base.{
  ℕ, zero, suc, ◌<◌, ◌≡◌, refl, sym, ap, ◌∙◌, Bool, true, false, ◌&&◌, List, [], ◌∷◌, Option, none,
  some, ◌==◌, if◌then◌else◌, arith, Bool-cases, inl, inr, ==_iff, get_or, get_or-set, set, length,
}
use beast_lounge.Boost.{Boost}
use beast_lounge.Lounge.{
  ChannelKind, system, room, table, User, Channel, Lounge, update_user, at, put_channel,
}
use beast_lounge.Lounge.Members.{on_insert, on_erase}

module _ ⦃B : Boost⦄ where
  open B use {Value, FlatSet, contains, insert, erase, contains-insert, contains-erase}

  -- Whether a channel that may be there has a user.
  abbrev pub has_user : ℕ → Option Channel → Bool
  has_user v none = false
  has_user v (some c) = contains v c.users

  pub record Linked (s : Lounge) : Type 0 where
    pub cids : (i : ℕ) (c : Channel) → at i s ≡ some c → c.cid ≡ i
    pub links : (i v : ℕ) → has_user v (at i s) ≡ contains i (s.users v).channels

  -- One user more or less in one channel, on both sides.
  pub Linked-update :
      (s s' : Lounge) (c c' : Channel) (u : ℕ) (b : Bool)
      → Linked s
      → at c.cid s ≡ some c
      → c'.cid ≡ c.cid
      → ((i : ℕ) → at i s' ≡ (if c.cid == i then some c' else at i s))
      → ((v : ℕ) → contains v c'.users ≡ (if v == u then b else contains v c.users))
      → ((i v : ℕ)
          → contains i (s'.users v).channels
            ≡ (if (v == u) && (c.cid == i) then b else contains i (s.users v).channels))
      → Linked s'
  Linked-update s s' c c' u b l here same ats members sets = record {
    cids = λ i d e. elim (Bool-cases (c.cid == i)) [
      | inl h ↦ ground (arith, ats i)
      | inr h ↦ l.cids i d (ground (arith, ats i))
    ];
    links = λ i v. elim (Bool-cases (c.cid == i)) [
      | inl h ↦ ap (has_user v) (ats i) ∙ rw h (members v) ∙ old v i h ∙ sym (sets i v)
      | inr h ↦ ap (has_user v) (ats i) ∙ rw h (l.links i v) ∙ other v i h ∙ sym (sets i v)
    ];
  }
    where
      old :
          (v i : ℕ)
          → (c.cid == i) ≡ true
          → (if v == u then b else contains v c.users)
            ≡ (if (v == u) && (c.cid == i) then b else contains i (s.users v).channels)
      old v i h =
          let e =
            ap (has_user v) (sym here)
            ∙ l.links c.cid v
            ∙ ap (λ k. contains k (s.users v).channels) ((==_iff c.cid i).0 h) in
          rw h (elim (Bool-cases (v == u)) [ inl k ↦ rw k refl | inr k ↦ rw k e ])

      other :
          (v i : ℕ)
          → (c.cid == i) ≡ false
          → contains i (s.users v).channels
            ≡ (if (v == u) && (c.cid == i) then b else contains i (s.users v).channels)
      other v i h = rw h (elim (Bool-cases (v == u)) [ inl k ↦ rw k refl | inr k ↦ rw k refl ])

  -- A channel that is there stands at a position of the vector.
  at-lt : (i : ℕ) (s : Lounge) (c : Channel) → at i s ≡ some c → i < length s.channels
  unfolding at
  at-lt i s c e = go s.channels i e
    where
      go : (cs : List (Option Channel)) (i : ℕ) → get_or cs i none ≡ some c → i < length cs
      go [] i e = cc
      go (x ∷ cs) zero e = omega arith
      go (x ∷ cs) (suc i) e = omega (arith, go cs i e)

  pub at-put :
      (i : ℕ) (s : Lounge) (c c' : Channel)
      → at c.cid s ≡ some c
      → c'.cid ≡ c.cid
      → at i (put_channel c' s) ≡ (if c.cid == i then some c' else at i s)
  unfolding at
  at-put i s c c' e same =
      ap (λ k. get_or (set s.channels k (some c')) i none) same
      ∙ get_or-set s.channels c.cid i (some c') none (at-lt c.cid s c e)

  -- What the derived classes do leaves the users and the channels alone.
  pub on_insert_same :
      (k : ChannelKind) (u : ℕ) (s : Lounge)
      → ((on_insert k u s).channels ≡ s.channels) × ((on_insert k u s).users ≡ s.users)
  unfolding on_insert
  on_insert_same system u s = (refl, refl)
  on_insert_same room u s = (refl, refl)
  on_insert_same table u s = (refl, refl)

  pub on_erase_same :
      (k : ChannelKind) (u : ℕ) (s : Lounge)
      → ((on_erase k u s).channels ≡ s.channels) × ((on_erase k u s).users ≡ s.users)
  unfolding on_erase
  on_erase_same system u s = (refl, refl)
  on_erase_same room u s = (refl, refl)
  on_erase_same table u s = (refl, refl)

  pub at-of : (i : ℕ) (s s' : Lounge) → s'.channels ≡ s.channels → at i s' ≡ at i s
  unfolding at
  at-of i s s' e = ap (λ cs. get_or cs i none) e

  flip : (a b : ℕ) → (a == b) ≡ (b == a)
  flip a b = ground arith

  pub insert_users :
      (c : Channel) (u v : ℕ)
      → contains v (insert u c.users) ≡ (if v == u then true else contains v c.users)
  insert_users c u v = ground (arith, contains-insert v u c.users)

  pub erase_users :
      (c : Channel) (u v : ℕ)
      → contains v (erase u c.users) ≡ (if v == u then false else contains v c.users)
  erase_users c u v = ground (arith, contains-erase v u c.users)

  pub insert_sets :
      (users : ℕ → User) (x : FlatSet) (u v i cid : ℕ)
      → (users v).channels ≡ x
      → contains i
          (update_user u (λ y. record y { channels = insert cid y.channels }) users v).channels
        ≡ (if (v == u) && (cid == i) then true else contains i x)
  insert_sets users x u v i cid e = elim (Bool-cases (v == u)) [
    | inl h ↦ rw (flip u v, h) (ground (arith, contains-insert i cid (users v).channels, e))
    | inr h ↦ rw (flip u v, h) (ap (contains i) e)
  ]

  pub erase_sets :
      (users : ℕ → User) (x : FlatSet) (u v i cid : ℕ)
      → (users v).channels ≡ x
      → contains i
          (update_user u (λ y. record y { channels = erase cid y.channels }) users v).channels
        ≡ (if (v == u) && (cid == i) then false else contains i x)
  erase_sets users x u v i cid e = elim (Bool-cases (v == u)) [
    | inl h ↦ rw (flip u v, h) (ground (arith, contains-erase i cid (users v).channels, e))
    | inr h ↦ rw (flip u v, h) (ap (contains i) e)
  ]
