-- ===== src/Lounge/Threads/Effects.antt =====
-- What one step of a thread makes of the channels and of the sets of the users.
use beast_lounge.Base.{
  ℕ, ◌≡◌, refl, sym, ap, ◌∙◌, Bool, true, false, ◌&&◌, some, ◌==◌, if◌then◌else◌, arith, Bool-cases,
  inl, inr, ==_iff,
}
use beast_lounge.Boost.{Boost}
use beast_lounge.Lounge.{Channel, Lounge, at, put_channel}
use beast_lounge.Lounge.Links.{has_user, at-put, at-of}
use beast_lounge.Lounge.Threads.{Point}
use beast_lounge.Lounge.Threads.Phases.{enters, exits, Agree, Agree-moved, phase}

module _ ⦃B : Boost⦄ where
  open B use {Value, contains, insert, erase}

  -- What a step of `u` at the channel `j` makes of the state.
  pub record Effect (s s' : Lounge) (u j : ℕ) (has mem : Bool → Bool) : Type 0 where
    pub cids :
        ((i : ℕ) (c : Channel) → at i s ≡ some c → c.cid ≡ i)
        → (i : ℕ) (c : Channel) → at i s' ≡ some c
        → c.cid ≡ i
    pub on_has :
        (i v : ℕ)
        → has_user v (at i s')
          ≡ (if (v == u) && (j == i) then has (has_user v (at i s)) else has_user v (at i s))
    pub on_mem :
        (i v : ℕ)
        → contains i (s'.users v).channels ≡ (
            if (v == u) && (j == i)
            then mem (contains i (s.users v).channels)
            else contains i (s.users v).channels)

  abbrev pub same_bit : Bool → Bool
  same_bit b = b

  if_same : {A : Type 0} (b : Bool) (x : A) → x ≡ (if b then x else x)
  if_same true x = refl
  if_same false x = refl

  pub Effect-same :
      (s s' : Lounge) (u j : ℕ)
      → s'.channels ≡ s.channels
      → ((v : ℕ) → (s'.users v).channels ≡ (s.users v).channels)
      → Effect s s' u j same_bit same_bit
  Effect-same s s' u j cs sets = record {
    cids = λ h i c k. h i c (sym (at-of i s s' cs) ∙ k);
    on_has = λ i v. ap (has_user v) (at-of i s s' cs) ∙ if_same ((v == u) && (j == i)) _;
    on_mem = λ i v. ap (contains i) (sets v) ∙ if_same ((v == u) && (j == i)) _;
  }

  pub Effect-put :
      (s : Lounge) (c c' : Channel) (u : ℕ) (b : Bool)
      → at c.cid s ≡ some c
      → c'.cid ≡ c.cid
      → ((v : ℕ) → contains v c'.users ≡ (if v == u then b else contains v c.users))
      → Effect s (put_channel c' s) u c.cid (λ _. b) same_bit
  Effect-put s c c' u b here same members = record {
    cids = λ h i d k. elim (Bool-cases (c.cid == i)) [
      | inl e ↦ ground (arith, at-put i s c c' here same)
      | inr e ↦ h i d (ground (arith, at-put i s c c' here same))
    ];
    on_has = λ i v. ap (has_user v) (at-put i s c c' here same) ∙ elim (Bool-cases (c.cid == i)) [
      | inr e ↦ rw e (elim (Bool-cases (v == u)) [ inl k ↦ rw k refl | inr k ↦ rw k refl ])
      | inl e ↦ rw e (
          members v ∙ elim (Bool-cases (v == u)) [
            | inl k ↦ rw k refl
            | inr k ↦ rw k (ap (has_user v) (sym here ∙ ap (λ n. at n s) ((==_iff c.cid i).0 e)))
          ])
    ];
    on_mem = λ i v. if_same ((v == u) && (c.cid == i)) _;
  }

  pub Effect-mem :
      (s s' : Lounge) (u j : ℕ) (b : Bool)
      → s'.channels ≡ s.channels
      → ((i v : ℕ)
          → contains i (s'.users v).channels
            ≡ (if (v == u) && (j == i) then b else contains i (s.users v).channels))
      → Effect s s' u j same_bit (λ _. b)
  Effect-mem s s' u j b e sets = record {
    cids = λ h i c k. h i c (sym (at-of i s s' e) ∙ k);
    on_has = λ i v. ap (has_user v) (at-of i s s' e) ∙ if_same ((v == u) && (j == i)) _;
    on_mem = sets;
  }

  abbrev pub holds : ℕ → ℕ → Lounge → Bool
  holds u i s = contains i (s.users u).channels

  abbrev pub Own : ℕ → Point → Lounge → Type 0
  Own u p s = (i : ℕ) → Agree (phase p) i (has_user u (at i s)) (holds u i s)

  abbrev pub Placed : Lounge → Type 0
  Placed s = (i : ℕ) (c : Channel) → at i s ≡ some c → c.cid ≡ i

  -- A step of the thread of `u` from `p` to `p'`
  pub record Step (u : ℕ) (s : Lounge) (p : Point) (s' : Lounge) (p' : Point) : Type 0 where
    pub placed : Placed s → Placed s'
    pub others_has : (i v : ℕ) → (v == u) ≡ false → has_user v (at i s') ≡ has_user v (at i s)
    pub others_mem : (i v : ℕ) → (v == u) ≡ false → holds v i s' ≡ holds v i s
    pub own : Own u p s → Own u p' s'

  pub ==_same : (n : ℕ) → (n == n) ≡ true
  ==_same n = ground arith

  pub Step-of :
      (u : ℕ) (s s' : Lounge) (p p' : Point) (j : ℕ) (f g : Bool → Bool)
      → Effect s s' u j f g
      → ((i : ℕ)
          → (j == i) ≡ false
          → (enters (phase p') i ≡ enters (phase p) i) × (exits (phase p') i ≡ exits (phase p) i))
      → ((i : ℕ)
          → (j == i) ≡ true
          → Agree (phase p) i (has_user u (at i s)) (holds u i s)
          → Agree (phase p') i (f (has_user u (at i s))) (g (holds u i s)))
      → Step u s p s' p'
  Step-of u s s' p p' j f g e elsewhere here = record {
    placed = e.cids;
    others_has = λ i v h. e.on_has i v ∙ rw h refl;
    others_mem = λ i v h. e.on_mem i v ∙ rw h refl;
    own = λ a i. elim (Bool-cases (j == i)) [
      | inl h ↦
          Agree-moved (refl, refl) (e.on_has i u ∙ rw (==_same u, h) refl)
            (e.on_mem i u ∙ rw (==_same u, h) refl) (here i h (a i))
      | inr h ↦
          Agree-moved (elsewhere i h) (e.on_has i u ∙ rw (==_same u, h) refl)
            (e.on_mem i u ∙ rw (==_same u, h) refl) (a i)
    ];
  }
