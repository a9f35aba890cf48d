-- ===== src/Lounge/Threads/Alone.antt =====
-- A call of insert or erase whose thread is never interrupted.
use beast_lounge.Base.{
  ℕ, zero, suc, ◌≡◌, refl, ap, ◌∙◌, Bool, true, false, List, [], ◌∷◌, some, ◌==◌, arith, Bool-cases,
  inl, inr,
}
use beast_lounge.Boost.{Boost}
use beast_lounge.Lounge.{ChannelKind, Channel, Lounge, at, put_channel}
use beast_lounge.Lounge.Members.{
  notify, notice, send_each, broadcast, insert_user, erase_user, user_on_insert, user_on_erase,
}
use beast_lounge.Lounge.Links.{at-put}
use beast_lounge.Lounge.Threads.{
  Call, inserts, erases, Point, at_rest, put_in, taken_out, telling_join, telling_leave, told,
  has_joined, has_left, begin_insert, begin_erase, list_join, list_leave, advance,
}

module _ ⦃B : Boost⦄ where
  open B use {Value, contains, insert, erase, elements}

  -- That many steps of one thread, with no other between
  abbrev pub alone : ℕ → ℕ → Call → Point × Lounge → Point × Lounge
  alone zero u call r = r
  alone (suc n) u call r = alone n u call (advance u call r.0 r.1)

  abbrev pub Reaches : ℕ → Call → Point × Lounge → Point × Lounge → Type 0
  Reaches u call r r' = (n : ℕ) × (alone n u call r ≡ r')

  Reaches-step :
      (u : ℕ) (call : Call) (p : Point) (s : Lounge) (r : Point × Lounge) {r' : Point × Lounge}
      → advance u call p s ≡ r
      → Reaches u call r r'
      → Reaches u call (p, s) r'
  Reaches-step u call p s r e (n, h) = (suc n, ap (alone n u call) e ∙ h)

  -- The loop of send()
  joins_told :
      (u i : ℕ) (call : Call) (k : ChannelKind) (jv : Value) (vs : List ℕ) (s : Lounge)
      (r : Point × Lounge)
      → Reaches u call (telling_join k i jv [], send_each vs jv s) r
      → Reaches u call (telling_join k i jv vs, s) r
  unfolding send_each advance
  joins_told u i call k jv [] s r h = h
  joins_told u i call k jv (v ∷ vs) s r h =
      Reaches-step u call (telling_join k i jv (v ∷ vs)) s _ refl
        (joins_told u i call k jv vs (notify v jv s) r h)

  leaves_told :
      (u i : ℕ) (call : Call) (k : ChannelKind) (jv : Value) (vs : List ℕ) (s : Lounge)
      (r : Point × Lounge)
      → Reaches u call (telling_leave k i jv [], send_each vs jv s) r
      → Reaches u call (telling_leave k i jv vs, s) r
  unfolding send_each advance
  leaves_told u i call k jv [] s r h = h
  leaves_told u i call k jv (v ∷ vs) s r h =
      Reaches-step u call (telling_leave k i jv (v ∷ vs)) s _ refl
        (leaves_told u i call k jv vs (notify v jv s) r h)

  ==_same : (n : ℕ) → (n == n) ≡ true
  ==_same n = ground arith

  at-put_same :
      (c c' : Channel) (s : Lounge)
      → at c.cid s ≡ some c
      → c'.cid ≡ c.cid
      → at c.cid (put_channel c' s) ≡ some c'
  at-put_same c c' s here same = at-put c.cid s c c' here same ∙ rw (==_same c.cid) refl

  -- What a call leaves behind
  abbrev pub rests : Lounge × Bool → Point × Lounge
  rests (s, answer) = (at_rest answer, s)

  begins_insert :
      (c : Channel) (u : ℕ) (s : Lounge)
      → at c.cid s ≡ some c
      → contains u c.users ≡ false
      → advance u (inserts c.cid) (at_rest false) s
        ≡ (put_in c.cid, put_channel (record c { users = insert u c.users }) s)
  unfolding advance
  begins_insert c u s here new =
      ap (λ o. begin_insert u c.cid o s) here ∙ rw (new, begin_insert) refl

  begins_erase :
      (c : Channel) (u : ℕ) (s : Lounge)
      → at c.cid s ≡ some c
      → contains u c.users ≡ true
      → advance u (erases c.cid) (at_rest false) s
        ≡ (taken_out c.cid, put_channel (record c { users = erase u c.users }) s)
  unfolding advance
  begins_erase c u s here old = ap (λ o. begin_erase u c.cid o s) here ∙ rw (old, begin_erase) refl

  -- A call that finds nothing to do
  insert_old :
      (c : Channel) (u : ℕ) (s : Lounge)
      → at c.cid s ≡ some c
      → contains u c.users ≡ true
      → advance u (inserts c.cid) (at_rest false) s ≡ rests (insert_user c u s)
  unfolding advance insert_user
  insert_old c u s here old =
      ap (λ o. begin_insert u c.cid o s) here ∙ rw (old, begin_insert, insert_user) refl

  erase_old :
      (c : Channel) (u : ℕ) (s : Lounge)
      → at c.cid s ≡ some c
      → contains u c.users ≡ false
      → advance u (erases c.cid) (at_rest false) s ≡ rests (erase_user c u s)
  unfolding advance erase_user
  erase_old c u s here new =
      ap (λ o. begin_erase u c.cid o s) here ∙ rw (new, begin_erase, erase_user) refl

  -- From the copy of the list on
  insert_rest :
      (c : Channel) (u : ℕ) (s : Lounge)
      → contains u c.users ≡ false
      → (call : Call)
      → let c' : Channel = record c { users = insert u c.users } in
        Reaches u call
          (
            telling_join c.class c.cid (notice "join" c' (s.users u)) (elements c'.users),
            put_channel c' s,
          )
          (rests (insert_user c u s))
  unfolding advance insert_user broadcast
  insert_rest c u s new call =
      let c' : Channel = record c { users = insert u c.users } in
      let jv : Value = notice "join" c' (s.users u) in
      let heard : Lounge = send_each (elements c'.users) jv (put_channel c' s) in
      joins_told u c.cid call c.class jv (elements c'.users) (put_channel c' s) _ (
        Reaches-step u call (telling_join c.class c.cid jv []) heard _ refl (
          Reaches-step u call (has_joined c.class) (user_on_insert u c.cid heard) _ refl
            (0, rw (new, insert_user) refl)))

  erase_rest :
      (c : Channel) (u : ℕ) (s : Lounge)
      → contains u c.users ≡ true
      → (call : Call)
      → let c' : Channel = record c { users = erase u c.users } in
        Reaches u call
          (
            telling_leave c.class c.cid (notice "leave" c' (s.users u)) (elements c'.users),
            put_channel c' s,
          )
          (rests (erase_user c u s))
  unfolding advance erase_user broadcast
  erase_rest c u s old call =
      let c' : Channel = record c { users = erase u c.users } in
      let jv : Value = notice "leave" c' (s.users u) in
      let heard : Lounge = send_each (elements c'.users) jv (put_channel c' s) in
      leaves_told u c.cid call c.class jv (elements c'.users) (put_channel c' s) _ (
        Reaches-step u call (telling_leave c.class c.cid jv []) heard _ refl (
          Reaches-step u call (told c.class c.cid) (notify u jv heard) _ refl (
            Reaches-step u call (has_left c.class) (user_on_erase u c.cid (notify u jv heard)) _
              refl (0, rw (old, erase_user) refl))))

  insert_alone :
      (c : Channel) (u : ℕ) (s : Lounge)
      → at c.cid s ≡ some c
      → Reaches u (inserts c.cid) (at_rest false, s) (rests (insert_user c u s))
  unfolding advance
  insert_alone c u s here = elim (Bool-cases (contains u c.users)) [
    | inl old ↦
        Reaches-step u (inserts c.cid) (at_rest false) s _ (insert_old c u s here old) (0, refl)
    | inr new ↦
        let c' : Channel = record c { users = insert u c.users } in
        Reaches-step u (inserts c.cid) (at_rest false) s _ (begins_insert c u s here new) (
          Reaches-step u (inserts c.cid) (put_in c.cid) (put_channel c' s) _
            (ap (λ o. (list_join u c.cid o (put_channel c' s), put_channel c' s))
              (at-put_same c c' s here refl))
            (insert_rest c u s new (inserts c.cid)))
  ]

  erase_alone :
      (c : Channel) (u : ℕ) (s : Lounge)
      → at c.cid s ≡ some c
      → Reaches u (erases c.cid) (at_rest false, s) (rests (erase_user c u s))
  unfolding advance
  erase_alone c u s here = elim (Bool-cases (contains u c.users)) [
    | inr new ↦
        Reaches-step u (erases c.cid) (at_rest false) s _ (erase_old c u s here new) (0, refl)
    | inl old ↦
        let c' : Channel = record c { users = erase u c.users } in
        Reaches-step u (erases c.cid) (at_rest false) s _ (begins_erase c u s here old) (
          Reaches-step u (erases c.cid) (taken_out c.cid) (put_channel c' s) _
            (ap (λ o. (list_leave u c.cid o (put_channel c' s), put_channel c' s))
              (at-put_same c c' s here refl))
            (erase_rest c u s old (erases c.cid)))
  ]

  -- A thread at rest that steps alone, enough times, leaves what insert_user and erase_user give in one
  -- step: of a channel of the list, whether the user is in it or not.
  pub alone_lem :
      (c : Channel) (u : ℕ) (s : Lounge)
      → at c.cid s ≡ some c
      → Reaches u (inserts c.cid) (at_rest false, s) (rests (insert_user c u s))
        × Reaches u (erases c.cid) (at_rest false, s) (rests (erase_user c u s))
  alone_lem c u s here = (insert_alone c u s here, erase_alone c u s here)
