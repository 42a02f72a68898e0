-- ===== src/Box/Transfer.antt =====
-- MP5/src/csiebox_common.c and csiebox_server.c: receiving, and the loop that receives a file.
-- A stream is what the client still sends before it closes the connection.
pub mod Complete
use sp.Prelude.{
  ℕ, zero, suc, ◌+◌, ◌-◌, List, [], ◌∷◌, ◌++◌, Option, none, some, Bool, true, false, ltb, leb,
  ◌==◌, if◌then◌else◌, length, take, drop,
}
use sp.Loser.Text.{Text}

-- What one call of `recv_message` gives: whether all came, what came, and what is left.
pub record Received : Type 0 where
  pub complete : Bool
  pub bytes : Text
  pub rest : Text

unfoldable pub recv_message : Text → ℕ → Received
recv_message stream len =
    if len == 0 then record { complete = false; bytes = []; rest = stream } else record {
      complete = leb len (length stream);
      bytes = take len stream;
      rest = drop len stream;
    }

unfoldable pub read_len : ℕ → ℕ → ℕ
read_len datalen total = if ltb (datalen - total) 4096 then datalen - total else 4096

-- What is written to the file, and what is left of the stream; `none` is fuel that did not do.
unfoldable pub copy_loop : ℕ → ℕ → ℕ → Text → Text → Option (Text × Text)
unfolding recv_message read_len
copy_loop zero datalen total stream written = none
copy_loop (suc fuel) datalen total stream written =
    let readlen = read_len datalen total in
    let r = recv_message stream readlen in
    let more = copy_loop fuel datalen (total + readlen) r.rest (written ++ r.bytes) in
    if ltb total datalen
    then if r.complete then more else some (written, r.rest)
    else some (written, stream)
