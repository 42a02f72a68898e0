-- ===== src/Box/Config.antt =====
-- MP5/src/csiebox_client.c and MP5/src/csiebox_server.c: the reading of a configuration file, which
-- both have in their `parse_arg`. `PATH_MAX` is a parameter.
pub mod Programs
mod Loops
mod Lines
mod Slots
mod RoundTrip
mod Examples
use sp.Prelude.{
  ℕ, zero, suc, ◌+◌, List, [], ◌∷◌, ◌++◌, Option, none, some, Bool, true, false, ◌&&◌, ◌==◌, leb,
  if◌then◌else◌, length,
}
use sp.Loser.Text.{Text}
use sp.Box.Sessions.{drop_last}
use sp.Box.Client.Paths.{string_in}

-- `getdelim` and `getline`, behind the bytes `t`: what is read up to and with `d`, or to the end,
-- and what follows.
unfoldable pub getdelim : ℕ → Text → Text → Text × Text
getdelim d t [] = (t, [])
getdelim d t (c ∷ cs) =
    let more = getdelim d (t ++ c ∷ []) cs in if c == d then (t ++ c ∷ [], cs) else more

-- `strncpy(dst, src, n)` in a buffer: behind the end of `src` come zeros.
unfoldable pub strncpy : Text → Text → ℕ → Text
strncpy dst src zero = dst
strncpy [] src (suc n) = []
strncpy (d ∷ dst) [] (suc n) = 0 ∷ strncpy dst [] n
strncpy (d ∷ dst) (c ∷ src) (suc n) = c ∷ strncpy dst (if c == 0 then [] else src) n

-- A round: the loop stops, or writes in front of `val` since `getline` gives -1, or has a key and a
-- value and goes on with what follows.
pub data Round : Type 0 where
  stopped : Round
  outside : Round
  config : Text → Text → Text → Round

unfoldable pub read_value : Text → Text × Text → Round
unfolding drop_last
read_value key ([], rest) = outside
read_value key (c ∷ line, rest) = config key (drop_last (c ∷ line)) rest

unfoldable pub next_config : Text → Round
unfolding getdelim read_value drop_last string_in
next_config text =
    let (key, rest) = getdelim b'=' [] text in
    if leb (length key) 1
    then stopped
    else read_value (string_in (drop_last key)) (getdelim b'\n' [] rest)

-- `test`: the conjunction of what was accepted.
unfoldable pub all_accepted : List Bool → Bool
all_accepted [] = true
all_accepted (a ∷ accept) = a && all_accepted accept

module _ {S : Type 0} (set_config : Text → Text → S → S) where
  -- The loop on a file; `none` is a write out of bounds. Two bytes are read in each round.
  unfoldable pub read_loop : ℕ → Text → S → Option S
  unfolding next_config
  read_loop zero text s = none
  read_loop (suc fuel) text s = elim (next_config text) [
    | stopped ↦ some s
    | outside ↦ none
    | config key val rest ↦ read_loop fuel rest (set_config key val s)
  ]

  unfoldable pub read_file : Text → S → Option S
  unfolding read_loop
  read_file text s = read_loop (suc (length text)) text s
