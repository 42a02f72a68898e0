-- ===== src/Mine/Team.antt =====
-- MP3/client/miner.c and MP3/server/boss.c: what the miners of a team test together.
pub mod Bytes
pub mod Finds
pub mod Search
