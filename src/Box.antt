-- ===== src/Box.antt =====
-- MP5/src/csiebox_server.c: the server of csiebox, which mirrors the directories of its clients.
pub mod Transfer
pub mod Sessions
pub mod Sync
pub mod Requests
pub mod Pool
pub mod Client
pub mod Config
mod SmallOs
mod Examples
