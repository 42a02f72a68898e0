-- ===== src/Mine/Config.antt =====
-- MP3/server/boss.c: `load_config_file`, for a file that one `read` takes whole.
mod RoundTrip
mod Examples
use sp.Prelude.{
  ℕ, suc, ◌+◌, List, [], ◌∷◌, ◌++◌, Option, none, some, Bool, true, false, ◌||◌, ◌&&◌, ltb, leb,
  ◌==◌, if◌then◌else◌, length, replicate, get_or, set, drop, not,
}
use sp.Loser.Text.{Text}

-- `none` is a pointer that was never set.
pub record PipePair : Type 0 where
  pub input_pipe : Option Text
  pub output_pipe : Option Text

pub record ServerConfig : Type 0 where
  pub mine_file : Text
  pub pipes : List PipePair
  pub num_miners : ℕ

-- The variables of the loop over the miners. `word` is the `len` bytes in front of `i`.
pub record Scan : Type 0 where
  pub pipes : List PipePair
  pub miner_num : ℕ
  pub word : Text
  pub process : Bool
  pub in_or_out : Bool
  pub skip : Bool

abbrev pub no_pipes : PipePair
no_pipes = record { input_pipe = none; output_pipe = none }

-- The array of nine pairs, none of them set.
unfoldable pub start_scan : Scan
start_scan = record {
  pipes = replicate 9 no_pipes;
  miner_num = 0;
  word = [];
  process = false;
  in_or_out = false;
  skip = true;
}

-- The loop from byte 6 to the first newline: the name, and what follows it, if it ends.
unfoldable pub mine_loop : Text → Text → Text × Option Text
mine_loop word [] = (word, none)
mine_loop word (c ∷ cs) =
    let later = mine_loop (word ++ c ∷ []) cs in if c == b'\n' then (word, some cs) else later

-- Writes to `pipes[miner_num]`; `none` is one behind the array.
unfoldable pub set_input : Scan → Option Scan
set_input s =
    let old = get_or s.pipes s.miner_num no_pipes in
    if ltb s.miner_num (length s.pipes)
    then some
        (record s { pipes = set s.pipes s.miner_num (record old { input_pipe = some s.word }) })
    else none

unfoldable pub set_output : Scan → Option Scan
set_output s =
    let old = get_or s.pipes s.miner_num no_pipes in
    if ltb s.miner_num (length s.pipes)
    then some
        (record s { pipes = set s.pipes s.miner_num (record old { output_pipe = some s.word }) })
    else none

-- Behind a newline, and behind a space.
unfoldable pub next_miner : Option Scan → Option Scan
next_miner none = none
next_miner (some s) = some (record s {
  miner_num = s.miner_num + 1;
  word = [];
  process = false;
  in_or_out = false;
  skip = true;
})

unfoldable pub next_word : Option Scan → Option Scan
next_word none = none
next_word (some s) = some (record s { word = []; process = false; in_or_out = true })

-- One byte; the inner loops that skip the first word of a line are rounds with `skip` here.
unfoldable pub scan_byte : ℕ → Scan → Option Scan
unfolding set_input set_output next_miner next_word
scan_byte c s =
    if s.skip
    then if (c == b' ') || (c == b'\n')
      then some (record s { process = true; skip = false })
      else some s
    else if c == b'\n'
    then next_miner (set_output s)
    else if c == b' '
    then next_word (set_input s)
    else some (record s { word = s.word ++ c ∷ [] })

unfoldable pub scan_loop : Text → Scan → Option Scan
unfolding scan_byte
scan_loop [] s = some s
scan_loop (c ∷ cs) s = elim (scan_byte c s) [ none ↦ none | some s' ↦ scan_loop cs s' ]

-- What stands behind the last delimiter.
unfoldable pub last_word : Scan → Option Scan
unfolding set_input set_output
last_word s = if s.process then (if s.in_or_out then set_output s else set_input s) else some s

unfoldable pub config_of : Text → Option Scan → Option ServerConfig
config_of mine_file none = none
config_of mine_file (some s) =
    some (record { mine_file = mine_file; pipes = s.pipes; num_miners = s.miner_num })

unfoldable pub end_scan : Option Scan → Option Scan
unfolding last_word
end_scan none = none
end_scan (some s) = last_word s

unfoldable pub read_miners : Text × Option Text → Option ServerConfig
unfolding scan_loop end_scan config_of start_scan
read_miners (mine_file, none) = config_of mine_file (some start_scan)
read_miners (mine_file, some rest) = config_of mine_file (end_scan (scan_loop rest start_scan))

-- `none` is undefined behaviour, or a file of more than 4096 bytes, whose further reads are left out.
unfoldable pub load_config_file : Text → Option ServerConfig
unfolding mine_loop read_miners
load_config_file file =
    let read = read_miners (mine_loop [] (drop 6 file)) in
    if ltb 0 (length file) && leb (length file) 4096 then read else none
