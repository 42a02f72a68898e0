-- ===== src/Loser.antt =====
-- MP1/main.c and MP1/list_file.c: `loser`, a small version control of one directory.
pub mod Text
pub mod Files
pub mod Classify
pub mod Record
pub mod Commands
pub mod Log
pub mod CommandLine
mod Examples
