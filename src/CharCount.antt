-- ===== src/CharCount.antt =====
-- MP0/ppp.c: the program that prints for each line how many of its bytes are in a set. What lies in
-- front of its array, which it reads at negative indices, is the parameter `front`.
mod Counts
mod Examples
use sp.Prelude.{
  ℕ, suc, ◌+◌, ◌-◌, List, [], ◌∷◌, Option, none, some, ◌==◌, ltb, if◌then◌else◌, replicate, get_or,
  set,
}
use sp.Loser.Text.{Text}

-- `charoc[argv[1][i]] = 1` for each byte; `none` is a write at a negative index, for a byte of 128
-- or more.
unfoldable pub mark_loop : Text → List ℕ → Option (List ℕ)
mark_loop [] charoc = some charoc
mark_loop (c ∷ cs) charoc =
    let marked = mark_loop cs (set charoc c 1) in if ltb c 128 then marked else none

module _ (front : ℕ → ℕ) where
  -- `charoc[qq]`, with `qq` a signed char: a byte of 128 or more reads in front of the array.
  unfoldable pub read_charoc : List ℕ → ℕ → ℕ
  read_charoc charoc c = if ltb c 128 then get_or charoc c 0 else front (256 - c)

  -- `if (charoc[qq] != 0) ans++;`
  unfoldable pub count_byte : List ℕ → ℕ → ℕ → ℕ
  unfolding read_charoc
  count_byte charoc c ans = if read_charoc charoc c == 0 then ans else ans + 1

  -- What the round at the end of the file prints: `qq` is -1, which is no newline.
  unfoldable pub end_of_file : ℕ → List ℕ
  end_of_file ans = if 255 == b'\n' then ans ∷ [] else []

  -- The loop until a zero byte, or the end of the file, which is counted as the byte 255 is.
  unfoldable pub count_loop : List ℕ → Text → ℕ → List ℕ
  unfolding count_byte end_of_file
  count_loop charoc [] ans = end_of_file (count_byte charoc 255 ans)
  count_loop charoc (c ∷ cs) ans =
      let now = count_byte charoc c ans in
      let line = count_loop charoc cs 0 in
      let more = count_loop charoc cs now in
      if c == 0 then [] else if c == b'\n' then now ∷ line else more

  unfoldable pub count_marked : Text → Option (List ℕ) → Option (List ℕ)
  unfolding count_loop
  count_marked file none = none
  count_marked file (some charoc) = some (count_loop charoc file 0)

  -- `file` is the second argument, when it opens, or what is typed.
  unfoldable pub main : Text → Option Text → Option (List ℕ)
  unfolding mark_loop count_marked
  main charset none = some []
  main charset (some file) = count_marked file (mark_loop charset (replicate 300 0))
