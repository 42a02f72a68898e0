-- ===== src/Mine/Protocol/Examples.antt =====
-- MP3/server/boss.c and MP3/client/miner.c: two miners behind a mine of one byte; the first byte that
-- miner 0 tests makes a treasure of size 1.
use sp.Prelude.{ℕ, ◌-◌, ◌%◌, ◌≡◌, refl, List, [], ◌∷◌, ◌++◌, true, arith}
use sp.Loser.Text.{Text, codes}
use sp.Md5.{makemd5}
use sp.Mine.{is_treasure}
use sp.Mine.Miner.{assign, asking, Miner, md5_of, serve, received, first_append, begin_rounds}
use sp.Mine.Boss.{
  Event, miner_acts, boss_reads, boss_continues, user_types, status_command, start, run,
}
use sp.Mine.Protocol.Agreement.{run-IsTreasure, run-Agrees, Agrees}
use sp.Mine.Team.Bytes.{none_left, and_byte}
use sp.Mine.Team.Finds.{turns}
use sp.Mine.Team.Search.{value_of, team-Finds}

abbrev names : ℕ → Text
names j = codes "m"

abbrev small_mine : Text
small_mine = codes "k"

-- The jobs are given, miner 0 reads its job, tests a byte, and the boss reads its result.
abbrev until_result : List (Event 2 names)
until_result =
    boss_continues
    ∷ miner_acts 0 (omega arith)
    ∷ user_types status_command
    ∷ miner_acts 0 (omega arith)
    ∷ boss_reads 0 (omega arith)
    ∷ []

-- Miner 0 answers the request for a status and sends the byte, and the boss takes it.
abbrev until_taken : List (Event 2 names)
until_taken =
    until_result ++ miner_acts 0 (omega arith) ∷ miner_acts 0 (omega arith) ∷ boss_continues ∷ []

one_treasure :
    (run 2 names (start names small_mine) until_taken).boss.treasure ≡ codes "k" ++ 0 ∷ []
unfolding run start md5_of makemd5 is_treasure first_append begin_rounds
one_treasure = refl

run-IsTreasure_example :
    (let boss = (run 2 names (start names small_mine) until_taken).boss in
      (added : Text) × (boss.treasure ≡ small_mine ++ added)
      × (is_treasure (md5_of boss.treasure) (boss.num_of_0 - 1) ≡ true)
      × (boss.treasure_md5 ≡ md5_of boss.treasure))
unfolding run start md5_of makemd5 is_treasure first_append begin_rounds
run-IsTreasure_example = run-IsTreasure 2 names small_mine until_taken (omega arith)

-- Miner 1 has read its job too.
abbrev both_search : List (Event 2 names)
both_search = boss_continues ∷ miner_acts 0 (omega arith) ∷ miner_acts 1 (omega arith) ∷ []

run-Agrees_example : Agrees 1 2 (run 2 names (start names small_mine) both_search)
unfolding run start first_append begin_rounds
run-Agrees_example =
    run-Agrees 2 names small_mine both_search 1 (1 ∷ []) 19999 (omega arith) refl refl

-- A miner that gets the mine.
abbrev newcomer : Miner
newcomer = (start names small_mine).miner 0

team-Finds_example :
    (let job = (serve newcomer (assign (value_of (0 ∷ []) % 2) 2 1 small_mine) []).miner in
      (steps : ℕ) × (bytes_found : Text) × ((turns steps job).phase ≡ asking bytes_found)
      × (is_treasure (md5_of (small_mine ++ bytes_found)) 1 ≡ true))
unfolding start received md5_of makemd5 is_treasure
team-Finds_example =
    team-Finds small_mine (0 ∷ []) 1 2 newcomer small_mine (omega arith) (omega arith)
      (and_byte (omega arith) none_left) (omega arith) refl refl
