-- ===== src/Lounge/Threads/Steps.antt =====
-- The steps of insert and erase, one after the other.
use beast_lounge.Base.{
  ℕ, ◌≡◌, refl, sym, ap, subst, ◌∙◌, Bool, true, false, [], ◌∷◌, Option, none, some, ◌==◌,
  Bool-cases, inl, inr, ==_iff,
}
use beast_lounge.Boost.{Boost}
use beast_lounge.Lounge.{ChannelKind, Channel, Lounge, at, put_channel}
use beast_lounge.Lounge.Members.{notify, user_on_insert, user_on_erase}
use beast_lounge.Lounge.Links.{
  has_user, on_insert_same, on_erase_same, insert_users, erase_users, insert_sets, erase_sets,
}
use beast_lounge.Lounge.Membership.{notify-SameBut}
use beast_lounge.Lounge.Threads.{
  Call, inserts, erases, Point, at_rest, put_in, taken_out, telling_join, telling_leave, told,
  has_joined, has_left, begin_insert, begin_erase, list_join, list_leave, advance,
}
use beast_lounge.Lounge.Threads.Phases.{
  entering, exiting, enters, exits, Agree-moved, enter, exit, entered, exited, phase,
}
use beast_lounge.Lounge.Threads.Effects.{
  same_bit, Effect-same, Effect-put, Effect-mem, Placed, Step, Step-of,
}

module _ ⦃B : Boost⦄ where
  open B use {Value, contains, insert, erase}

  -- A step that changes no set
  Step-quiet :
      (u : ℕ) (s s' : Lounge) (p p' : Point)
      → s'.channels ≡ s.channels
      → ((v : ℕ) → (s'.users v).channels ≡ (s.users v).channels)
      → phase p' ≡ phase p
      → Step u s p s' p'
  Step-quiet u s s' p p' cs sets q =
      Step-of u s s' p p' 0 same_bit same_bit (Effect-same s s' u 0 cs sets)
        (λ i h. (ap (λ x. enters x i) q, ap (λ x. exits x i) q))
        (λ i h a. Agree-moved (ap (λ x. enters x i) q, ap (λ x. exits x i) q) refl refl a)

  Step-stays : (u : ℕ) (s : Lounge) (p p' : Point) → phase p' ≡ phase p → Step u s p s p'
  Step-stays u s p p' q = Step-quiet u s s p p' refl (λ v. refl) q

  here : (i : ℕ) (c : Channel) (s : Lounge) → Placed s → at i s ≡ some c → at c.cid s ≡ some c
  here i c s l e = ap (λ k. at k s) (l i c e) ∙ e

  channel_bit :
      (u i k : ℕ) (c : Channel) (s : Lounge)
      → Placed s
      → at i s ≡ some c
      → (c.cid == k) ≡ true
      → has_user u (at k s) ≡ contains u c.users
  channel_bit u i k c s l e h =
      ap (λ n. has_user u (at n s)) (sym ((==_iff c.cid k).0 h)) ∙ ap (has_user u) (here i c s l e)

  begin_insert-Step :
      (u i : ℕ) (o : Option Channel) (s : Lounge) (b : Bool)
      → Placed s
      → at i s ≡ o
      → Step u s (at_rest b) (begin_insert u i o s).1 (begin_insert u i o s).0
  unfolding begin_insert
  begin_insert-Step u i none s b l e = Step-stays u s (at_rest b) (at_rest false) refl
  begin_insert-Step u i (some c) s b l e = elim (Bool-cases (contains u c.users)) [
    | inl old ↦ rw old (Step-stays u s (at_rest b) (at_rest false) refl)
    | inr new ↦ rw new (
        subst
          (λ k.
            Step u s (at_rest b) (put_channel (record c { users = insert u c.users }) s) (put_in k))
          (l i c e)
          (Step-of u s _ (at_rest b) (put_in c.cid) c.cid (λ _. true) same_bit
            (Effect-put s c (record c { users = insert u c.users }) u true (here i c s l e) refl
              (insert_users c u))
            (λ k h. (h, refl)) (λ k h a. enter h (channel_bit u i k c s l e h ∙ new) a)))
  ]

  begin_erase-Step :
      (u i : ℕ) (o : Option Channel) (s : Lounge) (b : Bool)
      → Placed s
      → at i s ≡ o
      → Step u s (at_rest b) (begin_erase u i o s).1 (begin_erase u i o s).0
  unfolding begin_erase
  begin_erase-Step u i none s b l e = Step-stays u s (at_rest b) (at_rest false) refl
  begin_erase-Step u i (some c) s b l e = elim (Bool-cases (contains u c.users)) [
    | inr new ↦ rw new (Step-stays u s (at_rest b) (at_rest false) refl)
    | inl old ↦ rw old (
        subst
          (λ k.
            Step u s (at_rest b) (put_channel (record c { users = erase u c.users }) s)
              (taken_out k))
          (l i c e)
          (Step-of u s _ (at_rest b) (taken_out c.cid) c.cid (λ _. false) same_bit
            (Effect-put s c (record c { users = erase u c.users }) u false (here i c s l e) refl
              (erase_users c u))
            (λ k h. (refl, h)) (λ k h a. exit h (channel_bit u i k c s l e h ∙ old) a)))
  ]

  Step-join :
      (u i : ℕ) (k : ChannelKind) (jv : Value) (s : Lounge)
      → Step u s (telling_join k i jv []) (user_on_insert u i s) (has_joined k)
  Step-join u i k jv s =
      Step-of u s (user_on_insert u i s) (telling_join k i jv []) (has_joined k) i same_bit
        (λ _. true)
        (Effect-mem s (user_on_insert u i s) u i true refl
          (λ n v. insert_sets s.users (s.users v).channels u v n i refl))
        (λ n h. (sym h, refl)) (λ n h a. entered h a)

  Step-leave :
      (u i : ℕ) (k : ChannelKind) (s : Lounge)
      → Step u s (told k i) (user_on_erase u i s) (has_left k)
  Step-leave u i k s =
      Step-of u s (user_on_erase u i s) (told k i) (has_left k) i same_bit (λ _. false)
        (Effect-mem s (user_on_erase u i s) u i false refl
          (λ n v. erase_sets s.users (s.users v).channels u v n i refl))
        (λ n h. (refl, sym h)) (λ n h a. exited h a)

  phase-list_join :
      (u i : ℕ) (o : Option Channel) (s : Lounge) → phase (list_join u i o s) ≡ entering i
  phase-list_join u i none s = refl
  phase-list_join u i (some c) s = refl

  phase-list_leave :
      (u i : ℕ) (o : Option Channel) (s : Lounge) → phase (list_leave u i o s) ≡ exiting i
  phase-list_leave u i none s = refl
  phase-list_leave u i (some c) s = refl

  Step-notify :
      (u v : ℕ) (jv : Value) (s : Lounge) (p p' : Point)
      → phase p' ≡ phase p
      → Step u s p (notify v jv s) p'
  Step-notify u v jv s p p' q =
      let e = notify-SameBut v jv s in
      Step-quiet u s (notify v jv s) p p' e.same_channels e.same_set q

  Step-class :
      (u : ℕ) (s s' : Lounge) (p p' : Point)
      → (s'.channels ≡ s.channels) × (s'.users ≡ s.users)
      → phase p' ≡ phase p
      → Step u s p s' p'
  Step-class u s s' p p' same q =
      Step-quiet u s s' p p' same.0 (λ v. ap (λ us. (us v).channels) same.1) q

  pub advance-Step :
      (u : ℕ) (call : Call) (p : Point) (s : Lounge)
      → Placed s
      → Step u s p (advance u call p s).1 (advance u call p s).0
  unfolding advance
  advance-Step u (inserts i) (at_rest b) s l = begin_insert-Step u i (at i s) s b l refl
  advance-Step u (erases i) (at_rest b) s l = begin_erase-Step u i (at i s) s b l refl
  advance-Step u call (put_in i) s l = Step-stays u s _ _ (phase-list_join u i (at i s) s)
  advance-Step u call (taken_out i) s l = Step-stays u s _ _ (phase-list_leave u i (at i s) s)
  advance-Step u call (telling_join k i jv (v ∷ vs)) s l = Step-notify u v jv s _ _ refl
  advance-Step u call (telling_join k i jv []) s l = Step-join u i k jv s
  advance-Step u call (has_joined k) s l = Step-class u s _ _ _ (on_insert_same k u s) refl
  advance-Step u call (telling_leave k i jv (v ∷ vs)) s l = Step-notify u v jv s _ _ refl
  advance-Step u call (telling_leave k i jv []) s l = Step-notify u u jv s _ _ refl
  advance-Step u call (told k i) s l = Step-leave u i k s
  advance-Step u call (has_left k) s l = Step-class u s _ _ _ (on_erase_same k u s) refl
