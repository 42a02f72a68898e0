-- ===== src/Mine/Boss.antt =====
-- MP3/server/boss.c: the boss beside its pipes, its commands, and how it takes a treasure.
use sp.Prelude.{
  ℕ, zero, suc, ◌+◌, ◌<◌, List, [], ◌∷◌, ◌++◌, Bool, true, false, ◌==◌, if◌then◌else◌, replicate,
  update,
}
use sp.Loser.Text.{Text}
use sp.Mine.Miner.{
  Message, assign, send, other_found, status, quit, Reply, named, found, bytes, reading, Miner,
  turn,
}

-- Where the boss stands: before the first assignment, at its `select`, at the read of the bytes of
-- miner `i` in `handle_found`, or behind its loop.
pub data Stage : Type 0 where
  starting : Stage
  selecting : Stage
  receiving : (i : ℕ) → Text → (datlen : ℕ) → Stage
  ended : Stage

-- The variables of `main` that the miners' messages and the commands change.
pub record Boss : Type 0 where
  pub treasure : Text
  pub num_of_0 : ℕ
  pub treasure_md5 : Text
  pub has_assign : Bool
  pub stage : Stage

-- The pipes to the miners, what is not read of each.
abbrev pub Pipes : Type 0
Pipes = ℕ → List Message

-- `write(client_fds[i].input_fd, …)`
unfoldable pub write_to : Pipes → ℕ → Message → Pipes
unfolding update
write_to to i msg = update to i (to i ++ msg ∷ [])

-- The loop over the miners from `i` on, `left` of them.
unfoldable pub assign_loop : ℕ → ℕ → Text → ℕ → ℕ → Pipes → Pipes
unfolding write_to
assign_loop num_of_0 num_miners new i zero to = to
assign_loop num_of_0 num_miners new i (suc left) to =
    assign_loop num_of_0 num_miners new (i + 1) left
      (write_to to i (assign i num_miners num_of_0 new))

unfoldable pub assign_jobs : ℕ → Text → ℕ → Pipes → Pipes
unfolding assign_loop
assign_jobs num_of_0 new num_miners to = assign_loop num_of_0 num_miners new 0 num_miners to

-- The loop that tells the miners but `winner` of a treasure.
unfoldable pub notice_loop : ℕ → Message → ℕ → ℕ → Pipes → Pipes
unfolding write_to
notice_loop winner notice j zero to = to
notice_loop winner notice j (suc left) to =
    notice_loop winner notice (j + 1) left (if j == winner then to else write_to to j notice)

-- The loops of `status` and `quit`.
unfoldable pub tell_loop : Message → ℕ → ℕ → Pipes → Pipes
unfolding write_to
tell_loop msg i zero to = to
tell_loop msg i (suc left) to = tell_loop msg (i + 1) left (write_to to i msg)

pub record System : Type 0 where
  pub boss : Boss
  pub miner : ℕ → Miner
  pub to : Pipes
  pub from : ℕ → List Reply

pub data Command : Type 0 where
  status_command : Command
  quit_command : Command

-- `handle_found` up to its read: the size is compared, and the bytes are asked for.
unfoldable pub handle_found : System → ℕ → Text → ℕ → ℕ → System
unfolding write_to
handle_found s i md5 num_of_0 datlen =
    if num_of_0 == s.boss.num_of_0
    then record s {
      boss = record s.boss { stage = receiving i md5 datlen };
      to = write_to s.to i send;
    }
    else s

-- A step of miner `i`.
unfoldable pub act_miner : System → ℕ → System
unfolding turn update
act_miner s i =
    let t = turn (s.miner i) (s.to i) in
    record s {
      miner = update s.miner i t.miner;
      to = update s.to i t.input;
      from = update s.from i (s.from i ++ t.output);
    }

module _ (num_miners : ℕ) (miner_names : ℕ → Text) where
  -- The rest of `handle_found`, with the bytes read: the others are told, and all get the next job.
  unfoldable pub take_bytes : System → ℕ → Text → Text → System
  unfolding notice_loop assign_jobs
  take_bytes s i md5 new = record s {
    boss = record s.boss {
      treasure = s.boss.treasure ++ new;
      num_of_0 = s.boss.num_of_0 + 1;
      treasure_md5 = md5;
      stage = selecting;
    };
    to =
        assign_jobs (s.boss.num_of_0 + 1) new num_miners
          (notice_loop i (other_found md5 s.boss.num_of_0 (miner_names i)) 0 num_miners s.to);
  }

  -- `handle_command`, and the end of the main loop behind a quit.
  unfoldable pub handle_command : System → Command → System
  unfolding tell_loop
  handle_command s status_command =
      if s.boss.has_assign then record s { to = tell_loop status 0 num_miners s.to } else s
  handle_command s quit_command = record s {
    boss = record s.boss { stage = ended };
    to = tell_loop quit 0 num_miners s.to;
  }

  -- The first assignment, when the mine is read.
  unfoldable pub begin_mining : System → System
  unfolding assign_jobs
  begin_mining s = record s {
    boss = record s.boss { has_assign = true; stage = selecting };
    to = assign_jobs s.boss.num_of_0 s.boss.treasure num_miners s.to;
  }

  -- The boss reads a message of miner `i`: with nothing there it goes on.
  unfoldable pub read_reply : System → ℕ → List Reply → System
  unfolding handle_found update
  read_reply s i (found md5 num_of_0 datlen ∷ rest) =
      handle_found (record s { from = update s.from i rest }) i md5 num_of_0 datlen
  read_reply s i (named name ∷ rest) = record s { from = update s.from i rest }
  read_reply s i (bytes new ∷ rest) = record s { from = update s.from i rest }
  read_reply s i [] = s

  -- The boss reads the bytes that it asked for, once they are there.
  unfoldable pub read_bytes : System → ℕ → Text → List Reply → System
  unfolding take_bytes update
  read_bytes s i md5 (bytes new ∷ rest) =
      take_bytes (record s { from = update s.from i rest }) i md5 new
  read_bytes s i md5 (other ∷ rest) = s
  read_bytes s i md5 [] = s

  -- One thing that happens: a miner's step, or a step of the boss where it stands. `i` is the pipe
  -- that the boss looks at next, and `command` what is typed, if anything is.
  pub data Event : Type 0 where
    miner_acts : (i : ℕ) → i < num_miners → Event
    boss_reads : (i : ℕ) → i < num_miners → Event
    boss_continues : Event
    user_types : Command → Event

  unfoldable pub act_boss : Stage → System → ℕ → System
  unfolding read_reply
  act_boss selecting s i = read_reply s i (s.from i)
  act_boss _ s i = s

  unfoldable pub continue_boss : Stage → System → System
  unfolding begin_mining read_bytes
  continue_boss starting s = begin_mining s
  continue_boss (receiving i md5 datlen) s = read_bytes s i md5 (s.from i)
  continue_boss _ s = s

  unfoldable pub obey : Stage → System → Command → System
  unfolding handle_command
  obey starting s c = handle_command s c
  obey selecting s c = handle_command s c
  obey _ s c = s

  unfoldable pub act : System → Event → System
  unfolding act_miner act_boss continue_boss obey
  act s (miner_acts i h) = act_miner s i
  act s (boss_reads i h) = act_boss s.boss.stage s i
  act s boss_continues = continue_boss s.boss.stage s
  act s (user_types c) = obey s.boss.stage s c

  unfoldable pub run : System → List Event → System
  unfolding act
  run s [] = s
  run s (e ∷ es) = run (act s e) es

-- The system when the miners have told their names and the mine is read.
unfoldable pub start : (ℕ → Text) → Text → System
start names mine = record {
  boss = record {
    treasure = mine;
    num_of_0 = 1;
    treasure_md5 = replicate 40 0;
    has_assign = false;
    stage = starting;
  };
  miner = λ j. record {
    name = names j;
    first_assign = true;
    treasure = [];
    jobs = record { start = 0; add = 0; num_of_0 = 0 };
    md5 = replicate 40 0;
    phase = reading;
  };
  to = λ _. [];
  from = λ _. [];
}
