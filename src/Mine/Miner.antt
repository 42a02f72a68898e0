-- ===== src/Mine/Miner.antt =====
-- MP3/client/miner.c: what a miner does with each message of the boss, and its search.
use sp.Prelude.{
  ℕ, suc, ◌-◌, ◌%◌, List, [], ◌∷◌, ◌++◌, none, some, Bool, true, false, ◌==◌, if◌then◌else◌, length,
  replicate, set,
}
use sp.Loser.Text.{Text}
use sp.Md5.{makemd5}
use sp.Mine.{is_treasure, next_append}

-- What the boss writes, a header with the bytes that follow it.
pub data Message : Type 0 where
  server_start : Message
  assign : (start add num_of_0 : ℕ) → Text → Message
  send : Message
  other_found : Text → (num_of_0 : ℕ) → Text → Message
  status : Message
  quit : Message

-- What a miner writes: `found` has the digest, the size of the treasure and `datlen`.
pub data Reply : Type 0 where
  named : Text → Reply
  found : Text → (num_of_0 datlen : ℕ) → Reply
  bytes : Text → Reply

-- What a miner prints.
pub data Line : Type 0 where
  boss_is_mindful : Line
  working_on : Text → Line
  i_win : ℕ → Text → Line
  other_wins : Text → ℕ → Text → Line
  boss_is_at_rest : Line

-- Where a miner stands: at the read of the main loop; in front of its `switch`, with a message that
-- was read before (`has_read`); in the loop of 20000 rounds, with the bytes to test and the rounds
-- left behind this one; at the `select` behind that loop; at the read of `if_find_treasure`.
pub data Phase : Type 0 where
  reading : Phase
  held : Message → Phase
  trying : Text → ℕ → Phase
  polling : Text → (start_next : Bool) → Phase
  asking : Text → Phase

-- `body` of `jobs_header`, without `datlen`.
pub record Job : Type 0 where
  pub start : ℕ
  pub add : ℕ
  pub num_of_0 : ℕ

pub record Miner : Type 0 where
  pub name : Text
  pub first_assign : Bool
  pub treasure : Text
  pub jobs : Job
  pub md5 : Text
  pub phase : Phase

-- What one step leaves: the miner, the messages not read yet, what it wrote and what it printed.
pub record Turn : Type 0 where
  pub miner : Miner
  pub input : List Message
  pub output : List Reply
  pub lines : List Line

-- The array `md5` behind a call of `makemd5`.
unfoldable pub md5_of : Text → Text
md5_of msg = elim (makemd5 msg) [ none ↦ [] | some digest ↦ digest ]

-- The first bytes of a length: zeros, and `start` in the last one.
unfoldable pub first_append : ℕ → ℕ → Text
first_append start num_of_append = set (replicate num_of_append 0) (num_of_append - 1) (start % 256)

-- The loop of 20000 rounds, at its first round.
unfoldable pub begin_rounds : Text → Phase
begin_rounds append = trying append 19999

-- The treasure behind an assignment: the first one brings it whole.
unfoldable pub received : Miner → Text → Text
received m new = if m.first_assign then new else m.treasure ++ new

-- The cases of `HEADER_OTHER_FOUND`, `HEADER_STATUS` and `HEADER_QUIT`.
unfoldable pub hear_found : Miner → Text → ℕ → Text → List Message → Turn
hear_found m md5 num_of_0 name q = record {
  miner = record m { phase = reading };
  input = q;
  output = [];
  lines = other_wins name num_of_0 md5 ∷ [];
}

unfoldable pub hear_status : Miner → List Message → Turn
hear_status m q = record {
  miner = record m { phase = reading };
  input = q;
  output = [];
  lines = working_on m.md5 ∷ [];
}

unfoldable pub hear_quit : Miner → List Message → Turn
hear_quit m q = record {
  miner = record m { first_assign = true; phase = reading };
  input = q;
  output = [];
  lines = boss_is_at_rest ∷ [];
}

-- The `switch` of the main loop.
unfoldable pub serve : Miner → Message → List Message → Turn
unfolding received begin_rounds first_append hear_found hear_status hear_quit
serve m server_start q = record {
  miner = record m { phase = reading };
  input = q;
  output = named m.name ∷ [];
  lines = boss_is_mindful ∷ [];
}
serve m (assign start add num_of_0 new) q = record {
  miner = record m {
    first_assign = false;
    treasure = received m new;
    jobs = record { start = start; add = add; num_of_0 = num_of_0 };
    phase = begin_rounds (first_append start 1);
  };
  input = q;
  output = [];
  lines = [];
}
serve m (other_found md5 num_of_0 name) q = hear_found m md5 num_of_0 name q
serve m status q = hear_status m q
serve m quit q = hear_quit m q
serve m send q = record { miner = record m { phase = reading }; input = q; output = []; lines = [] }

-- Nothing to read: the miner stays where it is.
unfoldable pub waits : Miner → Phase → Turn
waits m p = record { miner = record m { phase = p }; input = []; output = []; lines = [] }

unfoldable pub turn_reading : Miner → List Message → Turn
unfolding waits serve
turn_reading m [] = waits m reading
turn_reading m (msg ∷ q) = serve m msg q

-- One round: the bytes are tested, and the next ones follow.
unfoldable pub turn_trying : Miner → Text → ℕ → List Message → Turn
turn_trying m append left q =
    let digest = md5_of (m.treasure ++ append) in
    let after = next_append append m.jobs.add in
    if is_treasure digest m.jobs.num_of_0
    then record {
      miner = record m { md5 = digest; phase = asking append };
      input = q;
      output = found digest m.jobs.num_of_0 (length append) ∷ [];
      lines = [];
    }
    else record {
      miner = record m {
        md5 = digest;
        phase =
            if after.1
            then polling append true
            else if left == 0
            then polling after.0 false
            else trying after.0 (left - 1);
      };
      input = q;
      output = [];
      lines = [];
    }

-- Behind the `select`: the same length goes on, or the next one starts.
unfoldable pub resume : Miner → Text → Bool → Phase
unfolding begin_rounds first_append
resume m append start_next =
    if start_next
    then begin_rounds (first_append m.jobs.start (suc (length append)))
    else begin_rounds append

unfoldable pub turn_polling : Miner → Text → Bool → List Message → Turn
unfolding resume
turn_polling m append start_next [] = record {
  miner = record m { phase = resume m append start_next };
  input = [];
  output = [];
  lines = [];
}
turn_polling m append start_next (status ∷ q) = record {
  miner = record m { phase = resume m append start_next };
  input = q;
  output = [];
  lines = working_on m.md5 ∷ [];
}
turn_polling m append start_next (msg ∷ q) = record {
  miner = record m { phase = held msg };
  input = q;
  output = [];
  lines = [];
}

-- `if_find_treasure`, behind the write of the result.
unfoldable pub turn_asking : Miner → Text → List Message → Turn
unfolding waits
turn_asking m append [] = waits m (asking append)
turn_asking m append (send ∷ q) = record {
  miner = record m { phase = reading };
  input = q;
  output = bytes append ∷ [];
  lines = i_win m.jobs.num_of_0 m.md5 ∷ [];
}
turn_asking m append (status ∷ q) = record {
  miner = record m { phase = asking append };
  input = q;
  output = [];
  lines = working_on m.md5 ∷ [];
}
turn_asking m append (msg ∷ q) = record {
  miner = record m { phase = held msg };
  input = q;
  output = [];
  lines = [];
}

unfoldable pub turn_in : Phase → Miner → List Message → Turn
unfolding turn_reading serve turn_trying turn_polling turn_asking
turn_in reading m q = turn_reading m q
turn_in (held msg) m q = serve m msg q
turn_in (trying append left) m q = turn_trying m append left q
turn_in (polling append start_next) m q = turn_polling m append start_next q
turn_in (asking append) m q = turn_asking m append q

-- One step of a miner that has `q` to read.
unfoldable pub turn : Miner → List Message → Turn
unfolding turn_in
turn m q = turn_in m.phase m q
