-- ===== src/Session.antt =====
-- The outgoing messages of a session, server/core/ws_user.cpp: do_send, do_write and on_write of
-- ws_session_base. A message is known by the address of its buffer. Boost.Asio performs the write
-- that async_write begins, and invokes on_write when it ends.
pub mod Delivery
pub mod Conserved
pub mod Progress
use beast_lounge.Base.{
  ℕ, zero, suc, ◌-◌, Bool, true, false, List, [], ◌∷◌, ◌++◌, length, get_or, take, ◌==◌,
  if◌then◌else◌,
}
use beast_lounge.Blackjack.Shoe.{swap}

-- `queue` is mq_, and `is_open` says whether the socket is open. `outstanding` are the writes that
-- have begun and not ended, each the index bound to its on_write and the message; `written` are the
-- messages whose write ended without an error, oldest first.
pub record Writer : Type 0 where
  pub is_open : Bool
  pub queue : List ℕ
  pub outstanding : List (ℕ × ℕ)
  pub written : List ℕ

abbrev pub new_writer : Writer
new_writer = record { is_open = true; queue = []; outstanding = []; written = [] }

-- do_write()
unfoldable pub do_write : Writer → Writer
do_write w =
    let last = length w.queue - 1 in
    record w { outstanding = w.outstanding ++ (last, get_or w.queue last 0) ∷ [] }

-- do_send(m)
unfoldable pub do_send : ℕ → Writer → Writer
unfolding do_write
do_send m w =
    let w' = record w { queue = w.queue ++ m ∷ [] } in
    if w.is_open then if length w'.queue == 1 then do_write w' else w' else w

-- The queue after the element is swapped to its end and removed.
unfoldable pub drop_at : ℕ → List ℕ → List ℕ
drop_at i q = let last = length q - 1 in take last (if i == last then q else swap q i last)

-- on_write(idx, ec, ...), whether there was no error
unfoldable pub on_write : ℕ → Bool → Writer → Writer
unfolding do_write drop_at
on_write i false w = w
on_write i true w =
    let w' = record w { queue = drop_at i w.queue } in
    if length w'.queue == 0 then w' else do_write w'

-- What happens to a session: a message is sent, the write that began first ends, with or without
-- an error, or the socket is closed.
pub data Happening : Type 0 where
  sends : ℕ → Happening
  ends : Bool → Happening
  closes : Happening

-- The end of a write.
unfoldable pub end_write : Bool → Writer → List (ℕ × ℕ) → Writer
unfolding on_write
end_write ok w [] = w
end_write ok w ((i, m) ∷ others) =
    on_write i ok
      (record w { outstanding = others; written = if ok then w.written ++ m ∷ [] else w.written })

unfoldable pub happen : Writer → Happening → Writer
unfolding do_send end_write
happen w (sends m) = do_send m w
happen w (ends ok) = end_write ok w w.outstanding
happen w closes = record w { is_open = false }

unfoldable pub history : List Happening → Writer → Writer
unfolding happen
history [] w = w
history (h ∷ hs) w = history hs (happen w h)
