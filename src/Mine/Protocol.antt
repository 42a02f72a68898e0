-- ===== src/Mine/Protocol.antt =====
-- MP3/server/boss.c and MP3/client/miner.c: the boss and its miners over their pipes.
pub mod Loops
pub mod Flow
pub mod Searching
pub mod Turns
pub mod Delivery
pub mod Invariant
pub mod Writes
pub mod Orders
pub mod Takes
pub mod Safety
pub mod Agreement
mod Examples
