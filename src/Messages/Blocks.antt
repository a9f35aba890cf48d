-- ===== src/Messages/Blocks.antt =====
-- The size of the blocks of server/core/message.hpp.
use native.Mathlib.Nat.{div-add-mod', mod-lt}
use beast_lounge.Base.{ℕ, ◌+◌, ◌-◌, ◌*◌, ◌≤◌, ◌<◌, arith}
use beast_lounge.Messages.{units}

-- A block has room for the struct and for the bytes behind it, and less than one unit more.
pub units_bounds :
    (size n : ℕ)
    → 0 < size
    → (size + n ≤ units size n * size) × (units size n * size < 2 * size + n)
unfolding units
units_bounds size n pos =
    grind (arith, div-add-mod' (2 * size + n - 1) size, mod-lt (2 * size + n - 1) pos)
