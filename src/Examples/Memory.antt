-- ===== src/Examples/Memory.antt =====
-- Runs of the messages.
use beast_lounge.Base.{true, false, List, [], ◌∷◌}
use beast_lounge.Messages.{empty_memory, Op, makes, copies, moves, destroys, swaps, performed}
use beast_lounge.Messages.Counted.{Sound}
use beast_lounge.Messages.Counts.{performed-Sound}

abbrev broadcast_ops : List Op
broadcast_ops =
    makes "{}" true ∷ copies 0 ∷ moves 1 ∷ makes "" false ∷ swaps 2 3 ∷ destroys 0 ∷ destroys 3 ∷ []

performed-Sound_example : Sound (performed broadcast_ops empty_memory)
performed-Sound_example = performed-Sound broadcast_ops
