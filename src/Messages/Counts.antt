-- ===== src/Messages/Counts.antt =====
-- The reference counts of server/core/message.hpp.
use Prim.Native.String.{String}
use beast_lounge.Base.{
  ℕ, ◌+◌, ◌-◌, ◌<◌, ◌≡◌, inl, inr, refl, sym, ap, subst, ◌∙◌, Bool, true, false, Bool-cases, ◌&&◌,
  List, [], ◌∷◌, ◌++◌, length, length-set, get_or, get_or-set, set, hit, count, count-set, ltb,
  ltb→lt, ◌==◌, ==_iff, if◌then◌else◌, arith,
}
use beast_lounge.Messages.{
  Block, Memory, put, empty_memory, construct, copy, move, release, destroy, exchange, make_message,
  Op, makes, copies, moves, destroys, swaps, perform, performed,
}
use beast_lounge.Messages.Counted.{
  Counted, allocated, unused, Sound, put_self, put_other, count_snoc, hit_null, hit_self, hit_other,
  same-Counted, referred, null_message-Sound,
}

construct-Sound : (bytes : String) (s : Memory) → Sound s → Sound (construct bytes s)
unfolding construct
construct-Sound bytes s h = record {
  next = omega (arith, h.next);
  counted = λ p pos. at p (h.counted p pos);
}
  where
    made : Block
    made = record { bytes = bytes; count = 1; frees = 0 }

    at : (p : ℕ) → Counted s p → Counted (construct bytes s) p
    at p (allocated low c f) =
        let other : (p == s.fresh) ≡ false = ground (arith, low) in
        let n = count_snoc p s.messages s.fresh ∙ omega (arith, hit_other p s.fresh other) in
        let block = put_other s.fresh _ s.blocks p other in
        allocated (omega (arith, low)) (ap (λ b. b.count) block ∙ c ∙ sym n)
          (ap (λ b. b.frees) block ∙ f ∙ ap (λ k. if k == 0 then 1 else 0) (sym n))
    at p (unused high none) = elim (Bool-cases (p == s.fresh)) [
      | inl same ↦
          let n : count p (s.messages ++ s.fresh ∷ []) ≡ 1 =
            count_snoc p s.messages s.fresh
            ∙ omega (arith, none, hit_self p, ap (hit p) ((==_iff p s.fresh).0 same)) in
          let block = ap (λ t. if t then made else s.blocks p) same in
          allocated (omega (arith, (==_iff p s.fresh).0 same)) (ap (λ b. b.count) block ∙ sym n)
            (ap (λ b. b.frees) block ∙ ap (λ k. if k == 0 then 1 else 0) (sym n))
      | inr other ↦
          unused (ground (arith, high))
            (count_snoc p s.messages s.fresh ∙ omega (arith, none, hit_other p s.fresh other))
    ]

move-Sound : (i : ℕ) (s : Memory) → i < length s.messages → Sound s → Sound (move i s)
unfolding move
move-Sound i s here h = record {
  next = h.next;
  counted = λ p pos.
      let q = get_or s.messages i 0 in
      same-Counted s _ p refl refl
        (count_snoc p (set s.messages i 0) q
          ∙ omega (arith, count-set p s.messages i 0 here, hit_null p pos))
        (h.counted p pos);
}

exchange-Sound :
    (i j : ℕ) (s : Memory)
    → i < length s.messages
    → j < length s.messages
    → Sound s
    → Sound (exchange i j s)
unfolding exchange
exchange-Sound i j s low high h = record {
  next = h.next;
  counted = λ p pos. same-Counted s _ p refl refl (counts p) (h.counted p pos);
}
  where
    qi : ℕ
    qi = get_or s.messages i 0

    qj : ℕ
    qj = get_or s.messages j 0

    there : get_or (set s.messages i qj) j 0 ≡ qj
    there = get_or-set s.messages i j qj 0 low ∙ ground arith

    counts : (p : ℕ) → count p (set (set s.messages i qj) j qi) ≡ count p s.messages
    counts p = omega (
      arith,
      count-set p s.messages i qj low,
      count-set p (set s.messages i qj) j qi (omega (arith, length-set s.messages i qj)),
      ap (hit p) there,
    )

-- An operation that changes the block which a message refers to, and how many refer to it.
changed-Sound :
    (s : Memory) (q : ℕ) (b : Block) (messages : List ℕ)
    → Sound s
    → ((p : ℕ) → (p == q) ≡ false → 0 < p → count p messages ≡ count p s.messages)
    → q < s.fresh
    → b.count ≡ count q messages
    → b.frees ≡ (if count q messages == 0 then 1 else 0)
    → Sound (record s { blocks = put q b s.blocks; messages = messages })
changed-Sound s q b messages h others low c f = record {
  next = h.next;
  counted = λ p pos. elim (Bool-cases (p == q)) [
    | inl same ↦ subst (Counted _) (sym ((==_iff p q).0 same)) (
        allocated low (ap (λ b. b.count) (put_self q b s.blocks) ∙ c)
          (ap (λ b. b.frees) (put_self q b s.blocks) ∙ f))
    | inr other ↦
        same-Counted s _ p refl (put_other q b s.blocks p other) (others p other pos)
          (h.counted p pos)
  ];
}

copy-Sound : (i : ℕ) (s : Memory) → i < length s.messages → Sound s → Sound (copy i s)
unfolding copy
copy-Sound i s here h = elim (Bool-cases (q == 0)) [
  | inl null ↦ rw null record {
    next = h.next;
    counted = λ p pos.
        same-Counted s _ p refl refl
          (count_snoc p s.messages q
            ∙ omega (arith, hit_null p pos, ap (hit p) ((==_iff q 0).0 null)))
          (h.counted p pos);
  }
  | inr more ↦ rw more (
      let (low, pos, c, f) = referred s i here (h.counted q (ground (arith, more))) in
      let n : count q (s.messages ++ q ∷ []) ≡ count q s.messages + 1 =
        count_snoc q s.messages q ∙ omega (arith, hit_self q) in
      changed-Sound s q _ _ h
        (λ p other pos. count_snoc p s.messages q ∙ omega (arith, hit_other p q other)) low
        (omega (arith, c, n)) (f ∙ ground (arith, n)))
]
  where
    q : ℕ
    q = get_or s.messages i 0

destroy-Sound : (i : ℕ) (s : Memory) → i < length s.messages → Sound s → Sound (destroy i s)
unfolding destroy release
destroy-Sound i s here h = elim (Bool-cases (q == 0)) [
  | inl null ↦ rw null record {
    next = h.next;
    counted = λ p pos.
        same-Counted s _ p refl refl
          (omega (
            arith,
            count-set p s.messages i 0 here,
            hit_null p pos,
            ap (hit p) ((==_iff q 0).0 null),
          ))
          (h.counted p pos);
  }
  | inr more ↦ rw more (
      let (low, pos, c, f) = referred s i here (h.counted q (ground (arith, more))) in
      let n : (s.blocks q).count - 1 ≡ count q (set s.messages i 0) = omega (
        arith,
        c,
        count-set q s.messages i 0 here,
        hit_self q,
        hit_null q (ground (arith, more)),
      ) in
      changed-Sound s q _ _ h
        (λ p other pos.
          omega (arith, count-set p s.messages i 0 here, hit_other p q other, hit_null p pos))
        low n
        (ap (λ k. if k == 0 then (s.blocks q).frees + 1 else (s.blocks q).frees) n
          ∙ ap (λ k. if count q (set s.messages i 0) == 0 then k + 1 else k) f))
]
  where
    q : ℕ
    q = get_or s.messages i 0

if-Sound :
    (b : Bool) {s s' : Memory} → Sound s → (b ≡ true → Sound s') → Sound (if b then s' else s)
if-Sound true h h' = h' refl
if-Sound false h h' = h

both : (a b : Bool) → (a && b) ≡ true → (a ≡ true) × (b ≡ true)
both true b h = (refl, h)
both false b h = absurd cc

perform-Sound : (s : Memory) (op : Op) → Sound s → Sound (perform s op)
unfolding perform make_message
perform-Sound s (makes chunk true) h = construct-Sound chunk s h
perform-Sound s (makes chunk false) h = null_message-Sound s h
perform-Sound s (copies i) h = if-Sound _ h (λ e. copy-Sound i s (ltb→lt i _ e) h)
perform-Sound s (moves i) h = if-Sound _ h (λ e. move-Sound i s (ltb→lt i _ e) h)
perform-Sound s (destroys i) h = if-Sound _ h (λ e. destroy-Sound i s (ltb→lt i _ e) h)
perform-Sound s (swaps i j) h = if-Sound _ h (λ e.
    let (low, high) = both (ltb i (length s.messages)) _ e in
    exchange-Sound i j s (ltb→lt i _ low) (ltb→lt j _ high) h)

performed_from : (ops : List Op) (s : Memory) → Sound s → Sound (performed ops s)
unfolding performed
performed_from [] s h = h
performed_from (op ∷ ops) s h = performed_from ops (perform s op) (perform-Sound s op h)

-- Whatever is done with messages: the count of each block that was allocated is the number of the
-- messages that refer to it; it is deallocated once if there is none left, and not while there is one;
-- and no message refers to memory that was not allocated.
pub performed-Sound : (ops : List Op) → Sound (performed ops empty_memory)
unfolding count
performed-Sound ops =
    performed_from ops empty_memory
      record { next = omega arith; counted = λ p pos. unused (omega (arith, pos)) refl }
