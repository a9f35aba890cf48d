-- ===== src/Messages/Counted.antt =====
-- What a sound reference count is, for the messages of server/core/message.hpp.
use beast_lounge.Base.{
  ℕ, ◌+◌, ◌≤◌, ◌<◌, ◌≡◌, refl, sym, ap, ◌∙◌, false, List, [], ◌∷◌, ◌++◌, length, get_or, hit, count,
  count-append, count-get_or, ◌==◌, ==_iff, if◌then◌else◌, arith,
}
use beast_lounge.Messages.{Block, Memory, put, null_message}

-- What holds of an address other than null. A block that is allocated counts the messages that refer
-- to it, and was deallocated once if there is none, and else not at all; nothing refers to any other
-- address.
pub data Counted (s : Memory) (p : ℕ) : Type 0 where
  allocated :
      p < s.fresh
      → (s.blocks p).count ≡ count p s.messages
      → (s.blocks p).frees ≡ (if count p s.messages == 0 then 1 else 0)
      → Counted s p
  unused : s.fresh ≤ p → count p s.messages ≡ 0 → Counted s p

pub record Sound (s : Memory) : Type 0 where
  pub next : 0 < s.fresh
  pub counted : (p : ℕ) → 0 < p → Counted s p

pub put_self : (p : ℕ) (b : Block) (blocks : ℕ → Block) → put p b blocks p ≡ b
put_self p b blocks = ap (λ t. if t then b else blocks p) ((==_iff p p).1 refl)

pub put_other :
    (p : ℕ) (b : Block) (blocks : ℕ → Block) (q : ℕ)
    → (q == p) ≡ false
    → put p b blocks q ≡ blocks q
put_other p b blocks q other = ap (λ t. if t then b else blocks q) other

pub count_snoc : (p : ℕ) (xs : List ℕ) (q : ℕ) → count p (xs ++ q ∷ []) ≡ count p xs + hit p q
unfolding count
count_snoc p xs q = count-append p xs (q ∷ []) ∙ omega arith

pub hit_null : (p : ℕ) → 0 < p → hit p 0 ≡ 0
hit_null p pos = ground arith

pub hit_self : (p : ℕ) → hit p p ≡ 1
hit_self p = ap (λ t. if t then 1 else 0) ((==_iff p p).1 refl)

pub hit_other : (p q : ℕ) → (p == q) ≡ false → hit p q ≡ 0
hit_other p q other = ap (λ t. if t then 1 else 0) other

-- An operation that leaves a block and the number of messages that refer to it.
pub same-Counted :
    (s s' : Memory) (p : ℕ)
    → s'.fresh ≡ s.fresh
    → s'.blocks p ≡ s.blocks p
    → count p s'.messages ≡ count p s.messages
    → Counted s p
    → Counted s' p
same-Counted s s' p fresh block n (allocated low c f) =
    allocated (omega (arith, fresh)) (ap (λ b. b.count) block ∙ c ∙ sym n)
      (ap (λ b. b.frees) block ∙ f ∙ ap (λ k. if k == 0 then 1 else 0) (sym n))
same-Counted s s' p fresh block n (unused high none) = unused (omega (arith, fresh)) (n ∙ none)

-- What a message refers to.
pub referred :
    (s : Memory) (i : ℕ)
    → i < length s.messages
    → Counted s (get_or s.messages i 0)
    → let p = get_or s.messages i 0 in
      (p < s.fresh)
      × (0 < count p s.messages)
      × ((s.blocks p).count ≡ count p s.messages)
      × ((s.blocks p).frees ≡ 0)
referred s i here (allocated low c f) =
    let pos = count-get_or s.messages i here in (low, pos, c, f ∙ ground (arith, pos))
referred s i here (unused high none) = absurd (omega (arith, none, count-get_or s.messages i here))

pub null_message-Sound : (s : Memory) → Sound s → Sound (null_message s)
unfolding null_message
null_message-Sound s h = record {
  next = h.next;
  counted = λ p pos.
      same-Counted s _ p refl refl (count_snoc p s.messages 0 ∙ omega (arith, hit_null p pos))
        (h.counted p pos);
}
