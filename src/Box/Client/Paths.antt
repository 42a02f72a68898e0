-- ===== src/Box/Client/Paths.antt =====
-- MP5/src/csiebox_client.c: `convert_to_relative_path`, on the buffer that it shifts in place.
use sp.Prelude.{
  ℕ, zero, suc, ◌+◌, [], ◌∷◌, ◌++◌, Option, none, some, ◌==◌, ltb, if◌then◌else◌, length, get_or,
  set, take,
}
use sp.Loser.Text.{Text, same}
use sp.Box.Sessions.{slash}

-- The string at the beginning of a buffer.
unfoldable pub string_in : Text → Text
string_in [] = []
string_in (c ∷ cs) = if c == 0 then [] else c ∷ string_in cs

-- The loop from index `i` on, `left` rounds before it ends.
unfoldable pub shift_loop : ℕ → ℕ → ℕ → Text → Text
shift_loop rootlen i zero ret = ret
shift_loop rootlen i (suc left) ret =
    shift_loop rootlen (i + 1) left
      (set ret i (if ltb i rootlen then get_or ret (i + rootlen) 0 else 0))

-- The path from the root of the file system.
unfoldable pub full_path : Text → Text → Text
full_path cwd [] = cwd ++ (slash ++ [])
full_path cwd (c ∷ path) = if c == b'/' then c ∷ path else cwd ++ (slash ++ c ∷ path)

-- `junk` is what the buffer holds behind the string.
unfoldable pub convert_to_relative_path : Text → Text → Text → Text → Option Text
unfolding shift_loop string_in full_path same
convert_to_relative_path root cwd path junk =
    let ret = full_path cwd path in
    if same (take (length root) ret) root
    then some (string_in (shift_loop (length root) 0 (length ret) (ret ++ 0 ∷ junk)))
    else none
