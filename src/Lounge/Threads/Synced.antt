-- ===== src/Lounge/Threads/Synced.antt =====
-- What the channels and the users agree on while threads are in the midst of calls.
use beast_lounge.Base.{
  ℕ, ◌≡◌, refl, sym, ap, subst, ◌∙◌, true, ◌||◌, List, [], ◌∷◌, some, ◌==◌, if◌then◌else◌, arith,
  Bool-cases, inl, inr, ==_iff,
}
use beast_lounge.Boost.{Boost}
use beast_lounge.Lounge.{Channel, Lounge, at}
use beast_lounge.Lounge.Links.{has_user, Linked}
use beast_lounge.Lounge.Threads.{Call, Point, World, resting, turn, turns}
use beast_lounge.Lounge.Threads.Phases.{
  true≢false, steady, enters, exits, Agree, Agree-moved, phase,
}
use beast_lounge.Lounge.Threads.Effects.{holds, Step, ==_same}
use beast_lounge.Lounge.Threads.Steps.{advance-Step}

module _ ⦃B : Boost⦄ where
  open B use {Value, contains, insert, erase}

  pub record Synced (w : World) : Type 0 where
    pub cids : (i : ℕ) (c : Channel) → at i w.lounge ≡ some c → c.cid ≡ i
    pub agrees :
        (i v : ℕ)
        → Agree
            (phase (w.points v))
            i
            (has_user v (at i w.lounge))
            (contains i (w.lounge.users v).channels)

  flip : (a b : ℕ) → (a == b) ≡ (b == a)
  flip a b = ground arith

  Step-Synced :
      (u : ℕ) (w : World) (p' : Point) (s' : Lounge)
      → Step u w.lounge (w.points u) s' p'
      → Synced w
      → Synced (record { lounge = s'; points = λ v. if u == v then p' else w.points v })
  Step-Synced u w p' s' e h = record {
    cids = e.placed h.cids;
    agrees = λ i v. elim (Bool-cases (u == v)) [
      | inl same ↦ at_user i v same
      | inr other ↦
          Agree-moved
            (
              ap (λ q. (enters (phase q) i)) (rw other refl),
              ap (λ q. exits (phase q) i) (rw other refl),
            )
            (e.others_has i v (flip v u ∙ other)) (e.others_mem i v (flip v u ∙ other))
            (h.agrees i v)
    ];
  }
    where
      at_user :
          (i v : ℕ)
          → (u == v) ≡ true
          → Agree
              (phase (if u == v then p' else w.points v))
              i
              (has_user v (at i s'))
              (holds v i s')
      at_user i v same =
          subst
            (λ v.
              Agree (phase (if u == v then p' else w.points v)) i (has_user v (at i s'))
                (holds v i s'))
            ((==_iff u v).0 same)
            (subst
              (λ b.
                Agree (phase (if b then p' else w.points u)) i (has_user u (at i s'))
                  (holds u i s'))
              (sym (==_same u)) (e.own (λ k. h.agrees k u) i))

  pub resting-Synced : (s : Lounge) → Linked s → Synced (resting s)
  resting-Synced s l = record {
    cids = l.cids;
    agrees = λ i v. record {
      same = λ e. l.links i v;
      only_has = λ e. absurd (true≢false (sym e));
      only_mem = λ e. absurd (true≢false (sym e));
    };
  }

  agreed : (w : World) → Synced w → ((v : ℕ) → phase (w.points v) ≡ steady) → Linked w.lounge
  agreed w h rest = record {
    cids = h.cids;
    links = λ i v. (h.agrees i v).same (ap (λ p. enters p i || exits p i) (rest v));
  }

  pub turn-Synced : (u : ℕ) (call : Call) (w : World) → Synced w → Synced (turn u call w)
  unfolding turn
  turn-Synced u call w h = Step-Synced u w _ _ (advance-Step u call (w.points u) w.lounge h.cids) h

  turns-Synced : (ts : List (ℕ × Call)) (w : World) → Synced w → Synced (turns ts w)
  unfolding turns
  turns-Synced [] w h = h
  turns-Synced ((u, call) ∷ ts) w h = turns-Synced ts (turn u call w) (turn-Synced u call w h)

  -- Let the threads of the users step in any order, from a state in which the channels and the users are
  -- linked and all threads rest. Then the channel at a position has a user exactly if the user has the
  -- channel, but for a user whose thread is in the midst of a call on that channel: the channel alone
  -- has it until on_insert() of the user, and the user alone has the channel until its on_erase(), so
  -- that neither BOOST_VERIFY ever fails. Once no thread is in the midst of a call, all are linked.
  pub turns-resting :
      (ts : List (ℕ × Call)) (s : Lounge)
      → Linked s
      → Synced (turns ts (resting s))
        × (((v : ℕ) → phase ((turns ts (resting s)).points v) ≡ steady)
            → Linked (turns ts (resting s)).lounge)
  turns-resting ts s l =
      let h = turns-Synced ts (resting s) (resting-Synced s l) in
      (h, λ rest. agreed (turns ts (resting s)) h rest)
