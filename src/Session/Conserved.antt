-- ===== src/Session/Conserved.antt =====
-- No message of a session is lost or written twice, and a session that goes on writes them all.
use beast_lounge.Base.{
  ℕ, ◌+◌, ◌≡◌, refl, ap, ◌∙◌, Bool, true, false, List, [], ◌∷◌, ◌++◌, arith, length, get_or, ◌==◌,
  if◌then◌else◌, count, count-append, hit,
}
use beast_lounge.Session.{
  Writer, new_writer, do_write, do_send, drop_at, on_write, Happening, sends, ends, closes,
  end_write, happen, history,
}
use beast_lounge.Session.Delivery.{Writing, idle, busy, happen-Writing, count-drop_at}

-- How often a message was written or waits in the queue.
abbrev pub kept : ℕ → Writer → ℕ
kept c w = count c w.written + count c w.queue

abbrev hit_if : Bool → ℕ → ℕ → ℕ
hit_if b c m = if b then hit c m else 0

count-one : (c m : ℕ) → count c (m ∷ []) ≡ hit c m
unfolding count
count-one c m = omega arith

kept-if :
    (c n : ℕ) (b : Bool) (x y : Writer)
    → kept c x ≡ n
    → kept c y ≡ n
    → kept c (if b then x else y) ≡ n
kept-if c n true x y hx hy = hx
kept-if c n false x y hx hy = hy

kept-sent :
    (c m : ℕ) (b : Bool) (x w : Writer)
    → kept c x ≡ kept c w + hit c m
    → kept c (if b then x else w) ≡ kept c w + hit_if b c m
kept-sent c m true x w h = h
kept-sent c m false x w h = omega arith

kept-do_send : (c m : ℕ) (w : Writer) → kept c (do_send m w) ≡ kept c w + hit_if w.is_open c m
unfolding do_send do_write
kept-do_send c m w =
    kept-sent c m w.is_open _ w (kept-if c _ (length (w.queue ++ m ∷ []) == 1) _ _ more more)
  where
    more : count c w.written + count c (w.queue ++ m ∷ []) ≡ kept c w + hit c m
    more = omega (arith, count-append c w.queue (m ∷ []), count-one c m)

kept-on_write :
    (c i : ℕ) (w : Writer)
    → kept c (on_write i true w) ≡ count c w.written + count c (drop_at i w.queue)
unfolding on_write do_write
kept-on_write c i w = kept-if c _ (length (drop_at i w.queue) == 0) _ _ refl refl

kept-end_write :
    (c : ℕ) (ok : Bool) (w : Writer) → Writing w → kept c (end_write ok w w.outstanding) ≡ kept c w
unfolding end_write on_write
kept-end_write c ok w (idle e) = ap (λ l. kept c (end_write ok w l)) e
kept-end_write c false w (busy i h e) = ap (λ l. kept c (end_write false w l)) e
kept-end_write c true w (busy i h e) =
    ap (λ l. kept c (end_write true w l)) e
    ∙ kept-on_write c i
        (record w { outstanding = []; written = w.written ++ get_or w.queue i 0 ∷ [] })
    ∙ omega (
      arith,
      count-append c w.written (get_or w.queue i 0 ∷ []),
      count-one c (get_or w.queue i 0),
      count-drop_at c i w.queue h,
    )

open-if :
    (b v : Bool) (x y : Writer) → x.is_open ≡ v → y.is_open ≡ v → (if b then x else y).is_open ≡ v
open-if true v x y hx hy = hx
open-if false v x y hx hy = hy

open-do_send : (m : ℕ) (w : Writer) → (do_send m w).is_open ≡ w.is_open
unfolding do_send do_write
open-do_send m w =
    open-if w.is_open w.is_open _ w
      (open-if (length (w.queue ++ m ∷ []) == 1) w.is_open _ _ refl refl) refl

open-end_write :
    (ok : Bool) (w : Writer) (l : List (ℕ × ℕ)) → (end_write ok w l).is_open ≡ w.is_open
unfolding end_write on_write do_write
open-end_write ok w [] = refl
open-end_write false w ((i, m) ∷ l) = refl
open-end_write true w ((i, m) ∷ l) =
    open-if (length (drop_at i w.queue) == 0) w.is_open _ _ refl refl

-- The messages that are sent while the socket is open.
abbrev pub accepted : Bool → List Happening → List ℕ
accepted up [] = []
accepted up (sends m ∷ hs) = let rest = accepted up hs in if up then m ∷ rest else rest
accepted up (ends ok ∷ hs) = accepted up hs
accepted up (closes ∷ hs) = accepted false hs

pub kept-history :
    (c : ℕ) (hs : List Happening) (w : Writer)
    → Writing w
    → kept c (history hs w) ≡ kept c w + count c (accepted w.is_open hs)
unfolding history happen count
kept-history c [] w v = omega arith
kept-history c (sends m ∷ hs) w v =
    kept-history c hs (do_send m w) (happen-Writing w (sends m) v)
    ∙ ap (λ b. kept c (do_send m w) + count c (accepted b hs)) (open-do_send m w)
    ∙ ground (arith, kept-do_send c m w)
kept-history c (ends ok ∷ hs) w v =
    kept-history c hs (end_write ok w w.outstanding) (happen-Writing w (ends ok) v)
    ∙ ap (λ b. kept c (end_write ok w w.outstanding) + count c (accepted b hs))
        (open-end_write ok w w.outstanding)
    ∙ ap (λ n. n + count c (accepted w.is_open hs)) (kept-end_write c ok w v)
kept-history c (closes ∷ hs) w v =
    kept-history c hs (record w { is_open = false }) (happen-Writing w closes v)

-- Whatever happens to a session, each message that was sent while the socket was open is written or
-- waits in the queue, exactly as often as it was sent, and no other message is.
pub kept-new_writer :
    (c : ℕ) (hs : List Happening)
    → count c (history hs new_writer).written + count c (history hs new_writer).queue
      ≡ count c (accepted true hs)
kept-new_writer c hs = kept-history c hs new_writer (idle refl) ∙ unfold count in omega arith
