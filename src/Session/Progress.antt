-- ===== src/Session/Progress.antt =====
-- A session whose writes end without an error writes all that it was given.
use beast_lounge.Base.{
  ℕ, zero, suc, ◌-◌, ◌<◌, ◌≡◌, refl, sym, ap, ◌∙◌, subst, Bool, true, false, List, [], ◌∷◌, ◌++◌,
  arith, length, length-append, get_or, replicate, ◌==◌, ==_iff, if◌then◌else◌, count,
}
use beast_lounge.Session.{
  Writer, new_writer, do_write, do_send, drop_at, on_write, Happening, sends, ends, closes,
  end_write, happen, history,
}
use beast_lounge.Session.Delivery.{length-drop_at, get_or-append, history-new_writer-Writing}
use beast_lounge.Session.Conserved.{accepted, kept-new_writer, kept-history}

-- Nothing is left, or a write is outstanding.
data Live (w : Writer) : Type 0 where
  rests : w.outstanding ≡ [] → length w.queue ≡ 0 → Live w
  busy : (i : ℕ) → i < length w.queue → w.outstanding ≡ (i, get_or w.queue i 0) ∷ [] → Live w

Live-if :
    (b : Bool) (x y : Writer)
    → (b ≡ true → Live x)
    → (b ≡ false → Live y)
    → Live (if b then x else y)
Live-if true x y hx hy = hx refl
Live-if false x y hx hy = hy refl

do_write-Live : (w : Writer) → w.outstanding ≡ [] → 0 < length w.queue → Live (do_write w)
unfolding do_write
do_write-Live w e h = busy (length w.queue - 1) (omega arith) (rw e refl)

sent-Live : (m : ℕ) (w : Writer) → Live w → Live (do_send m w)
unfolding do_send
sent-Live m w v =
    Live-if w.is_open _ w
      (λ up. Live-if (length (w.queue ++ m ∷ []) == 1) (do_write w') w' (first v) (later v))
      (λ shut. v)
  where
    w' : Writer
    w' = record w { queue = w.queue ++ m ∷ [] }

    first : Live w → (length (w.queue ++ m ∷ []) == 1) ≡ true → Live (do_write w')
    first (rests e n) one = do_write-Live w' e (omega (arith, length-append w.queue (m ∷ [])))
    first (busy i h e) one =
        absurd (omega (arith, h, (==_iff _ _).0 one, length-append w.queue (m ∷ [])))

    later : Live w → (length (w.queue ++ m ∷ []) == 1) ≡ false → Live w'
    later (rests e n) more = absurd (ground (arith, more, n, length-append w.queue (m ∷ [])))
    later (busy i h e) more =
        busy i (omega (arith, h, length-append w.queue (m ∷ [])))
          (e ∙ ap (λ k. (i, k) ∷ []) (sym (get_or-append w.queue m i h)))

on_write-Live : (i : ℕ) (w : Writer) → w.outstanding ≡ [] → Live (on_write i true w)
unfolding on_write
on_write-Live i w e =
    Live-if (length (drop_at i w.queue) == 0) _ _ (λ nothing. rests e ((==_iff _ _).0 nothing))
      (λ something. do_write-Live _ e (ground arith))

end_write-Live : (w : Writer) → Live w → Live (end_write true w w.outstanding)
unfolding end_write
end_write-Live w (rests e n) = subst (λ l. Live (end_write true w l)) (sym e) (rests e n)
end_write-Live w (busy i h e) =
    subst (λ l. Live (end_write true w l)) (sym e) (on_write-Live i _ refl)

-- No write ends with an error.
abbrev pub NoError : List Happening → Type 0
NoError [] = Unit {0}
NoError (ends false ∷ hs) = ⊥
NoError (_ ∷ hs) = NoError hs

history-Live : (hs : List Happening) (w : Writer) → NoError hs → Live w → Live (history hs w)
unfolding history happen
history-Live [] w ok v = v
history-Live (sends m ∷ hs) w ok v = history-Live hs _ ok (sent-Live m w v)
history-Live (ends true ∷ hs) w ok v = history-Live hs _ ok (end_write-Live w v)
history-Live (ends false ∷ hs) w ok v = absurd ok
history-Live (closes ∷ hs) w ok (rests e n) = history-Live hs _ ok (rests e n)
history-Live (closes ∷ hs) w ok (busy i h e) = history-Live hs _ ok (busy i h e)

queue-if :
    (b : Bool) (x y : Writer) (n : ℕ)
    → length x.queue ≡ n
    → length y.queue ≡ n
    → length (if b then x else y).queue ≡ n
queue-if true x y n hx hy = hx
queue-if false x y n hx hy = hy

-- A write that ends takes its message out of the queue.
queue-end_write :
    (w : Writer) → Live w → length (end_write true w w.outstanding).queue ≡ length w.queue - 1
unfolding end_write on_write do_write
queue-end_write w (rests e n) = ap (λ l. length (end_write true w l).queue) e ∙ omega arith
queue-end_write w (busy i h e) =
    ap (λ l. length (end_write true w l).queue) e
    ∙ queue-if (length (drop_at i w.queue) == 0) _ _ _ (length-drop_at i w.queue)
        (length-drop_at i w.queue)

-- As many ends of writes as there are messages empty the queue.
drained :
    (n : ℕ) (w : Writer)
    → Live w
    → length w.queue ≡ n
    → length (history (replicate n (ends true)) w).queue ≡ 0
unfolding history happen
drained zero w v e = e
drained (suc n) w v e =
    drained n (end_write true w w.outstanding) (end_write-Live w v)
      (omega (arith, queue-end_write w v))

none_accepted : (up : Bool) (n : ℕ) → accepted up (replicate n (ends true)) ≡ []
none_accepted up zero = refl
none_accepted up (suc n) = none_accepted up n

none_left : (c : ℕ) (q : List ℕ) → length q ≡ 0 → count c q ≡ 0
unfolding count
none_left c [] e = refl
none_left c (x ∷ q) e = absurd (omega arith)

-- If no write ends with an error, then after whatever has happened to a session as many further ends
-- of writes as there are messages in the queue write each message that was sent while the socket was
-- open exactly as often as it was sent, and no other.
pub written-history :
    (c : ℕ) (hs : List Happening)
    → NoError hs
    → let w = history hs new_writer in
      count c (history (replicate (length w.queue) (ends true)) w).written
      ≡ count c (accepted true hs)
written-history c hs ok =
    let w : Writer = history hs new_writer in
    let n : ℕ = length w.queue in
    omega (
      arith,
      kept-history c (replicate n (ends true)) w (history-new_writer-Writing hs),
      ap (count c) (none_accepted w.is_open n),
      none_left c [] refl,
      none_left c (history (replicate n (ends true)) w).queue
          (drained n w (history-Live hs new_writer ok (rests refl refl)) refl),
      kept-new_writer c hs,
    )
