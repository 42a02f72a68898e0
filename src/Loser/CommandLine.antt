-- ===== src/Loser/CommandLine.antt =====
-- MP1/main.c: `main`, which reads the number of `log` and the aliases of `.loser_config`.
pub mod Numbers
use sp.Prelude.{
  ℕ, zero, suc, ◌+◌, ◌-◌, ◌*◌, List, [], ◌∷◌, ◌++◌, Option, none, some, Bool, true, false, ◌==◌,
  if◌then◌else◌, length, get_or,
}
use sp.Loser.Text.{Text, codes, same, words}

-- What `main` runs: a command on the path that is given.
pub data Command : Type 0 where
  run_status : Text → Command
  run_commit : Text → Command
  run_log : Text → ℕ → Command

-- The loop from the last character on; digits only.
unfoldable pub number_loop : Text → ℕ → ℕ → ℕ → ℕ
number_loop text zero num tui = num
number_loop text (suc i) num tui =
    number_loop text i (num + (get_or text i 0 - b'0') * tui) (tui * 10)

unfoldable pub read_num : Text → ℕ
unfolding number_loop
read_num text = number_loop text (length text) 0 1

-- What an alias stands for, by the first letter of the command; `none` for
-- `third` is `argv[3]` when there are three arguments: NULL, for which `log` does nothing.
unfoldable pub alias_command : Text → Text → Option Text → Option Command
unfolding read_num
alias_command [] second third = none
alias_command (c ∷ cs) second third =
    if c == b'c'
    then some (run_commit second)
    else if c == b's'
    then some (run_status second)
    else if c == b'l'
    then elim third [ none ↦ none | some path ↦ some (run_log path (read_num second)) ]
    else none

-- A name that matches, with the command read last; `none` is one that was never read.
unfoldable pub alias_found : Option Text → Text → Option Text → Option Command
unfolding alias_command
alias_found none second third = none
alias_found (some command) second third = alias_command command second third

-- `fscanf(fp, "%s%s%s", nick_name, laji, command)` until the name is found. A line of one or two
-- words at the end is compared too, with the command before. The words are taken to fit.
unfoldable pub alias_loop : Text → Option Text → List Text → Text → Option Text → Option Command
unfolding alias_found same
alias_loop name old [] second third = none
alias_loop name old (nick_name ∷ []) second third =
    if same nick_name name then alias_found old second third else none
alias_loop name old (nick_name ∷ laji ∷ []) second third =
    if same nick_name name then alias_found old second third else none
alias_loop name old (nick_name ∷ laji ∷ command ∷ ws) second third =
    let later = alias_loop name (some command) ws second third in
    if same nick_name name then alias_found (some command) second third else later

-- `config` is `.loser_config` of the last argument, when it opens. `none` is doing nothing.
unfoldable pub main : Option Text → Text → Text → Option Text → Option Command
unfolding same read_num alias_loop words
main config first second third =
    if same first (codes "status")
    then some (run_status second)
    else if same first (codes "commit")
    then some (run_commit second)
    else if same first (codes "log")
    then elim third [ none ↦ none | some path ↦ some (run_log path (read_num second)) ]
    else elim config [
      | none ↦ none
      | some text ↦ alias_loop first none (words [] text) second third
    ]
