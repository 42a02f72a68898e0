-- ===== src/Mine.antt =====
-- MP3/client/miner.c: the test of a digest for a treasure, and the counter of appended bytes.
pub mod Counter
pub mod Zeros
pub mod Miner
pub mod Boss
pub mod Protocol
pub mod Team
pub mod Config
mod Examples
use sp.Prelude.{
  ℕ, zero, suc, ◌+◌, ◌-◌, ◌/◌, ◌%◌, List, [], ◌∷◌, Bool, true, false, ltb, ◌==◌, not, if◌then◌else◌,
  length, get_or, set,
}

-- The loop over the first `num_of_0` characters from index `j` on, `left` of them.
unfoldable pub zero_loop : List ℕ → ℕ → ℕ → Bool
zero_loop md5 j zero = true
zero_loop md5 j (suc left) =
    let later = zero_loop md5 (j + 1) left in if get_or md5 j 0 == b'0' then later else false

-- `judans`: the first `num_of_0` characters are zeros, and the next one is not. Behind the 32
-- characters the array `md5` holds zero bytes.
unfoldable pub is_treasure : List ℕ → ℕ → Bool
unfolding zero_loop
is_treasure md5 num_of_0 =
    if zero_loop md5 0 num_of_0 then not (get_or md5 num_of_0 0 == b'0') else false

-- The loop from byte `j - 1` down: the bytes, and whether the next length starts.
unfoldable pub carry_loop : List ℕ → ℕ → ℕ → List ℕ × Bool
carry_loop append zero next_add = (append, false)
carry_loop append (suc j) next_add =
    let tmp = get_or append j 0 + next_add in
    let later = carry_loop (set append j (tmp % 256)) j (tmp / 256) in
    if ltb 255 tmp then if j == 0 then (append, true) else later else (set append j tmp, false)

-- The step to the next bytes to append; `add` is the number of miners.
unfoldable pub next_append : List ℕ → ℕ → List ℕ × Bool
unfolding carry_loop
next_append append add = carry_loop append (length append) add
