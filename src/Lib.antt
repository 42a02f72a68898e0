-- ===== src/Lib.antt =====
-- SP2017 is five separate C programs of a course on system programming: `ppp` (MP0), the version
-- control `loser` (MP1), the file synchroniser csiebox (MP2, and again with threads in MP5), a
-- mining game of a boss and its miners over pipes (MP3), and a chat server that pairs clients by
-- filters that they send as C code (MP4). This library models the parts below.
--
-- Which file models what:
-- - Prelude: Boolean tests, lists, integers and arrays as functions on the native numbers, and
--   `◌>>=◌` on Option. A number of the C code is a native number; subtraction is written as the
--   code needs it.
-- - Hash: MP5/src/hash.c (MP2/src/hash.c is the same but for one function). A table is an array of
--   chains; a chain is the list of its nodes. Each function of the file has a definition of its
--   name; the C reference parameters are components of the result, and `none` is a read or write
--   outside an allocated array. Hash.Nodes and Hash.Table are about one chain and the array of them,
--   Hash.Operations, Hash.Lookup, Hash.Path and Hash.Iterator about the functions.
-- - Chat: MP4/MP4main.c. Chat.Queue has the doubly linked list of waiting clients on an explicit heap
--   (`insert`, `del`, the search loops); Chat.Match the child process that calls the filters
--   (`match`) and the parent's loop that restarts it behind a filter that crashed; Chat.Server
--   the branches of the loop of `main` on the arrays of the server, with the queue as the
--   list that Chat.Queue refines. The compiled filters are the parameter `filter`. The fuel of the
--   parent's loop is the number of children; one more than there are waiting clients is enough.
--   Chat.Server.Reach has the runs of the server as an inductive relation.
-- - Loser: MP1/main.c and MP1/list_file.c. Loser.Text has strings and what the C library does with
--   them, Loser.Files the directory and the loops with growing buffers, Loser.Classify the loops
--   that sort the files into new, modified and copied, Loser.Record the text of `.loser_record`,
--   as it is written and as it is read, Loser.Commands `status` and `commit`,
--   Loser.Log `logloser`, Loser.CommandLine the choice of a command in `main`. The digest is a
--   parameter. `none` is undefined behaviour: a write behind an array, a use of what was
--   never set. Not modelled: paths, and the missing byte in the names of list_file.c:24.
-- - Md5: MP1/mmd5.c, whose code MP3/server/boss.h repeats. The loop for the padded length has fuel
--   for every `int` below 0 and 512 rounds more, the loop over the chunks one round for each byte.
--   `uint32_t` wraps; an overflow of `int new_len` is `none`, which messages below 2 ^ 28 - 8
--   bytes do not meet, and for these both are proved to be enough.
-- - Box: MP5/src/csiebox_server.c with parts of csiebox_common.c and thread.c. Box.Transfer has
--   `recv_message` and the loop that receives a file in blocks of 4096 bytes (the fuel, two
--   more than the number of whole blocks, is proved to be enough), Box.Sessions the account
--   file, `login`, `logout` and the check that each request makes, Box.Sync `sync_file` and
--   `rm_file` over the calls of the operating system, which are the parameter `os` with the laws
--   `IsPosix`, Box.Requests `handle_request`, `choose_thread` and `run_task`. The digest of libbsd is
--   a parameter.
--   Box.Pool has thread.c step by step: each thread of the pool with its point in
--   `task_thread_func`, its lock and `busy`, and the main thread in `run_task`; any interleaving is a
--   list of events. A task is the connection that it serves, and runs in one step.
--   Box.Client has MP5/src/csiebox_client.c: the path behind the root in its buffer (Paths, Relative),
--   `sync_all` on a tree of what `readdir` and `lstat` show, with its two hash tables (Blocks,
--   Requested, Tree), the events of inotify, `rm_file` and `login`. A request is what the client
--   sends, with the data that it sends if asked. Mirror and Whole put the walk and the server's `sync_file` together; that a call on one
--   path leaves other files alone is the hypothesis `IsFramed` of Folders, that a directory which its
--   owner can use takes a new file or directory the hypothesis `MakesFiles`.
--   Box.Config has `parse_arg` of both: the loop over the file (Loops and Lines), the two programs
--   (Programs), and the buffers that the client fills (Slots, RoundTrip). The rounds of the loop are
--   counted by the bytes of the file, which Loops shows to be enough.
-- - Mine: MP3/client/miner.c and MP3/server/boss.c. Mine has the test of a digest for a treasure and
--   the counter of appended bytes (Mine.Counter, Mine.Zeros), Mine.Miner the main loop of a miner as
--   a step from what its pipe holds (`turn`), with the search in rounds of 20000 and the answer of
--   the boss; Mine.Boss the boss between its pipes (`assign_jobs`, `handle_found`,
--   `handle_command`), the whole as a system whose runs are lists of events in any order.
--   Mine.Protocol proves what holds of every run: Flow is what a pipe can hold, Searching, Turns and
--   Delivery are about a miner's steps, Writes, Orders, Takes and Safety about the boss's. Mine.Team
--   is about what the miners test together. Mine.Config reads the configuration file of the boss. A
--   run begins when the names are told and the mine is read. A write to a pipe is one message, and a
--   read takes it whole. The digest is that of Md5.
-- - CharCount: MP0/ppp.c, on the text that it reads; what C prints is the list of its numbers. It
--   reads in front of its array at the end of each file, and what is there is a parameter.
-- The files called Examples run the definitions on small inputs.
--
-- Not modelled: sockets, `select`, the processes and signals, the JSON of cJSON (MP4) and the
-- compiler that the chat server calls; csiebox in
-- MP2, and of MP3 the dump of a treasure and a configuration file of more than one read.
mod Prelude
pub mod Hash
pub mod Chat
pub mod Loser
pub mod Md5
pub mod Box
pub mod Mine
pub mod CharCount
