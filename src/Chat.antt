-- ===== src/Chat.antt =====
-- MP4/MP4main.c: the chat server that pairs clients.
pub mod Queue
pub mod Match
pub mod Server
