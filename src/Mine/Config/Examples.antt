-- ===== src/Mine/Config/Examples.antt =====
-- MP3/server/boss.c: configuration files of the boss.
use sp.Prelude.{
  ◌-◌, ◌≡◌, refl, List, [], ◌∷◌, ◌++◌, map, none, some, true, ◌==◌, ◌≤◌, length, replicate, arith,
}
use sp.Loser.Text.{codes}
use sp.Loser.Text.Laws.{lacks}
use sp.Mine.Config.{
  no_pipes, start_scan, mine_loop, set_input, set_output, next_miner, next_word, scan_byte,
  scan_loop, last_word, config_of, end_scan, read_miners, load_config_file,
}
use sp.Mine.Config.RoundTrip.{
  MinerLine, put_miners, put_config, pair_of, AreMiners, ends_word, load_config_file-put_config,
}

abbrev two_miners : List MinerLine
two_miners =
    record { tag = codes "MINER:"; input = codes "a_in"; output = codes "a_out" }
    ∷ record { tag = codes "MINER:"; input = codes "b_in"; output = codes "b_out" }
    ∷ []

mine-lacks : lacks (λ c. c == b'\n') (codes "mine.bin") ≡ true
unfolding lacks
mine-lacks = refl

two_miners-AreMiners : AreMiners two_miners
unfolding lacks ends_word
two_miners-AreMiners = ground arith

short_file : length (put_config (codes "mine.bin") two_miners) ≤ 4096
unfolding put_config put_miners
short_file = omega arith

load_config_file-put_config_example :
    load_config_file (put_config (codes "mine.bin") two_miners)
    ≡ some (record {
      mine_file = codes "mine.bin";
      pipes = map pair_of two_miners ++ replicate (9 - length two_miners) no_pipes;
      num_miners = length two_miners;
    })
load_config_file-put_config_example =
    load_config_file-put_config (codes "mine.bin") two_miners mine-lacks two_miners-AreMiners
      (omega arith) short_file

-- Without a newline at the end of the file the last miner is not counted.
last_miner_lost :
    load_config_file (codes "MINE: m" ++ (b'\n' ∷ codes "MINER: a b"))
    ≡ some (record {
      mine_file = codes "m";
      pipes = record { input_pipe = some (codes "a"); output_pipe = none } ∷ replicate 8 no_pipes;
      num_miners = 0;
    })
unfolding load_config_file mine_loop read_miners scan_loop scan_byte end_scan last_word config_of
    start_scan set_input set_output next_miner next_word
last_miner_lost = refl

-- The pipes of a tenth miner are written behind the array.
tenth_miner : scan_loop (codes " a b") (record start_scan { miner_num = 9 }) ≡ none
unfolding scan_loop scan_byte start_scan set_input set_output next_miner next_word
tenth_miner = refl
