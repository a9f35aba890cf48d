-- ===== src/Session/Delivery.antt =====
-- What becomes of the messages that a session is given.
use beast_lounge.Base.{
  ℕ, zero, suc, ◌+◌, ◌-◌, ◌<◌, ◌≡◌, refl, sym, ap, ◌∙◌, subst, Bool, true, false, List, [], ◌∷◌,
  ◌++◌, arith, length, length-append, length-take, get_or, take, ◌==◌, ==_iff, if◌then◌else◌,
  Bool-cases, inl, inr, count, hit,
}
use beast_lounge.Blackjack.Shoe.{swap}
use beast_lounge.Blackjack.Shoe.Swaps.{length-swap, count-swap, get_or-swap}
use beast_lounge.Session.{
  Writer, new_writer, do_write, do_send, drop_at, on_write, Happening, sends, ends, closes,
  end_write, happen, history,
}

count-take_last :
    (c n : ℕ) (q : List ℕ)
    → length q ≡ suc n
    → count c (take n q) + hit c (get_or q n 0) ≡ count c q
unfolding count
count-take_last c n [] e = absurd (omega arith)
count-take_last c zero (x ∷ []) e = omega arith
count-take_last c zero (x ∷ y ∷ q) e = absurd (omega arith)
count-take_last c (suc n) (x ∷ q) e = omega (arith, count-take_last c n q (omega arith))

pub length-drop_at : (i : ℕ) (q : List ℕ) → length (drop_at i q) ≡ length q - 1
unfolding drop_at
length-drop_at i q = elim (Bool-cases (i == length q - 1)) [
  | inl e ↦ rw e (omega (arith, length-take (length q - 1) q))
  | inr e ↦ rw e (
      omega (
        arith,
        length-take (length q - 1) (swap q i (length q - 1)),
        length-swap q i (length q - 1),
      ))
]

-- The message at the index is taken out, and no other.
pub count-drop_at :
    (c i : ℕ) (q : List ℕ) → i < length q → count c (drop_at i q) + hit c (get_or q i 0) ≡ count c q
unfolding drop_at
count-drop_at c i q h =
    let last : ℕ = length q - 1 in
    elim (Bool-cases (i == last)) [
      | inl e ↦ rw e (
          ap (λ k. count c (take last q) + hit c (get_or q k 0)) ((==_iff i last).0 e)
          ∙ count-take_last c last q (omega arith))
      | inr e ↦ rw e (
          ap (λ m. count c (take last (swap q i last)) + hit c m)
            (sym (get_or-swap q i last h (omega arith)))
          ∙ count-take_last c last (swap q i last) (omega (arith, length-swap q i last))
          ∙ count-swap c q i last h (omega arith))
    ]

-- Either no write is outstanding, or one is, of the message that stands at its index.
pub data Writing (w : Writer) : Type 0 where
  idle : w.outstanding ≡ [] → Writing w
  busy : (i : ℕ) → i < length w.queue → w.outstanding ≡ (i, get_or w.queue i 0) ∷ [] → Writing w

pub get_or-append : (q : List ℕ) (m i : ℕ) → i < length q → get_or (q ++ m ∷ []) i 0 ≡ get_or q i 0
get_or-append [] m i h = absurd (omega arith)
get_or-append (x ∷ q) m zero h = refl
get_or-append (x ∷ q) m (suc i) h = get_or-append q m i (omega arith)

do_write-Writing : (w : Writer) → w.outstanding ≡ [] → 0 < length w.queue → Writing (do_write w)
unfolding do_write
do_write-Writing w e h = busy (length w.queue - 1) (omega arith) (rw e refl)

Writing-if :
    (b : Bool) (x y : Writer)
    → (b ≡ true → Writing x)
    → (b ≡ false → Writing y)
    → Writing (if b then x else y)
Writing-if true x y hx hy = hx refl
Writing-if false x y hx hy = hy refl

do_send-Writing : (m : ℕ) (w : Writer) → Writing w → Writing (do_send m w)
unfolding do_send
do_send-Writing m w v =
    Writing-if w.is_open _ w
      (λ up.
        Writing-if (length (w.queue ++ m ∷ []) == 1) (do_write w') w'
          (λ one. first v (omega (arith, (==_iff _ _).0 one, length-append w.queue (m ∷ []))))
          (λ more. later v))
      (λ shut. v)
  where
    w' : Writer
    w' = record w { queue = w.queue ++ m ∷ [] }

    first : Writing w → length w.queue ≡ 0 → Writing (do_write w')
    first (idle e) n = do_write-Writing w' e (omega (arith, length-append w.queue (m ∷ [])))
    first (busy i h e) n = absurd (omega arith)

    later : Writing w → Writing w'
    later (idle e) = idle e
    later (busy i h e) =
        busy i (omega (arith, length-append w.queue (m ∷ [])))
          (e ∙ ap (λ k. (i, k) ∷ []) (sym (get_or-append w.queue m i h)))

on_write-Writing : (i : ℕ) (ok : Bool) (w : Writer) → w.outstanding ≡ [] → Writing (on_write i ok w)
unfolding on_write
on_write-Writing i false w e = idle e
on_write-Writing i true w e =
    Writing-if (length (drop_at i w.queue) == 0) _ _ (λ none_left. idle e)
      (λ some_left. do_write-Writing _ e (ground arith))

end_write-Writing : (ok : Bool) (w : Writer) → Writing w → Writing (end_write ok w w.outstanding)
unfolding end_write
end_write-Writing ok w (idle e) = subst (λ l. Writing (end_write ok w l)) (sym e) (idle e)
end_write-Writing ok w (busy i h e) =
    subst (λ l. Writing (end_write ok w l)) (sym e) (on_write-Writing i ok _ refl)

pub happen-Writing : (w : Writer) (h : Happening) → Writing w → Writing (happen w h)
unfolding happen
happen-Writing w (sends m) v = do_send-Writing m w v
happen-Writing w (ends ok) v = end_write-Writing ok w v
happen-Writing w closes (idle e) = idle e
happen-Writing w closes (busy i h e) = busy i h e

pub history-Writing : (hs : List Happening) (w : Writer) → Writing w → Writing (history hs w)
unfolding history
history-Writing [] w v = v
history-Writing (h ∷ hs) w v = history-Writing hs (happen w h) (happen-Writing w h v)

-- Whatever is sent, however the writes end and whenever the socket is closed: at most one write of a
-- session is outstanding at a time, and its message stands in the queue at the index of the write.
pub history-new_writer-Writing : (hs : List Happening) → Writing (history hs new_writer)
history-new_writer-Writing hs = history-Writing hs new_writer (idle refl)
