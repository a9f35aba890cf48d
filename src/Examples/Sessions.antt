-- ===== src/Examples/Sessions.antt =====
-- The messages of a session.
use beast_lounge.Base.{◌+◌, ◌≡◌, refl, List, [], ◌∷◌, true, count, length, replicate}
use beast_lounge.Blackjack.Shoe.{swap}
use beast_lounge.Session.{
  new_writer, Happening, sends, ends, history, happen, do_send, end_write, on_write, do_write,
  drop_at,
}
use beast_lounge.Session.Delivery.{Writing, history-new_writer-Writing}
use beast_lounge.Session.Conserved.{accepted, kept-new_writer}
use beast_lounge.Session.Progress.{written-history}

-- Four messages are sent while the first is written, then one write ends.
abbrev burst : List Happening
burst = sends 1 ∷ sends 2 ∷ sends 3 ∷ sends 4 ∷ ends true ∷ []

-- The second message to be written is not the second that was sent.
burst_order :
    (history (replicate 4 (ends true)) (history burst new_writer)).written ≡ 1 ∷ 3 ∷ 2 ∷ 4 ∷ []
unfolding history happen do_send end_write on_write do_write drop_at swap
burst_order = refl

history-new_writer-Writing_example : Writing (history burst new_writer)
history-new_writer-Writing_example = history-new_writer-Writing burst

kept-new_writer_example :
    count 3 (history burst new_writer).written + count 3 (history burst new_writer).queue
    ≡ count 3 (accepted true burst)
kept-new_writer_example = kept-new_writer 3 burst

written-history_example :
    let w = history burst new_writer in
    count 3 (history (replicate (length w.queue) (ends true)) w).written
    ≡ count 3 (accepted true burst)
written-history_example = written-history 3 burst tt
