-- ===== src/Examples.antt =====
-- Runs of the theorems on concrete data, for the tests of the library.
mod Json
mod Cards
mod Seats
mod Requests
mod Users
mod Sessions
mod Tables
mod Servers
mod Starting
mod Interleaving
mod Memory
mod Values
mod Listening
mod Http
