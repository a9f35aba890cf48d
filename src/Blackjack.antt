-- ===== src/Blackjack.antt =====
-- The blackjack game: server/blackjack/game.hpp and server/core/blackjack.cpp.
pub mod Shoe
pub mod Hand
pub mod Seat
pub mod Game
