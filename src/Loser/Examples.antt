-- ===== src/Loser/Examples.antt =====
-- MP1/main.c: a directory with two files, one of them copied.
use sp.Prelude.{◌+◌, ◌%◌, ◌≡◌, refl, inl, List, [], ◌∷◌, none, some, true, length, arith}
use sp.Loser.Text.{Text, codes, strcmp, same, digits, put_int, is_space}
use sp.Loser.Text.{flush, is_digit, words}
use sp.Loser.Text.Laws.{lacks}
use sp.Loser.Files.{
  Entry, plain, folder, open_update, read_loop, read_file, is_dot, list_loop, list_file,
  insert_entry, qsort, lookup, find_record,
}
use sp.Loser.Files.Reads.{without_dots, list_file-without_dots}
use sp.Loser.Classify.{Line, nothing, classify, is_old, digest_first}
use sp.Loser.Classify.Meets.{report_of, classify-report_of}
use sp.Loser.Record.{put_names, put_lines, put_report, put_commit, status_start, read_old}
use sp.Loser.Record.Clean.{IsDigest, AreLines, is_special}
use sp.Loser.Record.RoundTrip.{read_old-status, read_old-overflow}
use sp.Loser.Commands.{
  entries, missing, append_record, append_text, all_new, commit_first, commit_found, commit_listed,
  commit,
}
use sp.Loser.Record.Clean.{is_mark}
use sp.Loser.Log.{
  logloser, log_loop, log_print, seek_end, scan_mark, read_number, print_rest, show_commit,
  print_before, skip_space, word, scan_number, number,
}
use sp.Loser.Log.Rounds.{Section, put_history, newest}
use sp.Loser.Log.Shows.{logloser-newest}
use sp.Loser.Log.Reads.{smooth}
use sp.Loser.CommandLine.{
  run_log, main, alias_loop, alias_found, alias_command, read_num, number_loop,
}
use sp.Loser.Commands.Next.{Commits}
use sp.Loser.Commands.Unchanged.{commit-Commits}

-- A short digest: the last digit of the length.
abbrev short_md5 : Text → Text
short_md5 c = (b'0' + length c % 10) ∷ []

short_md5-IsDigest : (c : Text) → IsDigest (short_md5 c)
unfolding lacks is_special is_space
short_md5-IsDigest c = (ground arith, omega arith, omega arith)

abbrev file_a : Entry
file_a = record { name = codes "a"; kind = plain (codes "one") }

abbrev file_b : Entry
file_b = record { name = codes "b"; kind = plain (codes "three") }

abbrev here : Entry
here = record { name = codes "."; kind = folder }

abbrev directory : List Entry
directory = here ∷ file_b ∷ file_a ∷ []

abbrev line_a : Line
line_a = record { name = codes "a"; md5 = codes "3" }

abbrev line_b : Line
line_b = record { name = codes "b"; md5 = codes "5" }

first_record :
    commit short_md5 true (entries directory)
    ≡ some (
        entries (
          here
          ∷ file_b
          ∷ file_a
          ∷ record {
            name = codes ".loser_record";
            kind =
                plain
                  (codes "# commit 1\n[new_file]\na\nb\n[modified]\n[copied]\n(MD5)\na 3\nb 5\n");
          }
          ∷ []))
unfolding commit commit_listed commit_found commit_first list_file list_loop is_dot same strcmp
    qsort insert_entry find_record lookup digest_first read_file read_loop open_update put_commit
    put_report put_names put_lines put_int digits all_new append_record append_text
first_record = refl

no_change : commit short_md5 true missing ≡ some missing
unfolding commit
no_change = refl

list_file-without_dots_example : list_file directory ≡ some (without_dots directory)
list_file-without_dots_example = list_file-without_dots directory

classify-report_of_example :
    classify
      (line_a ∷ line_b ∷ [])
      (line_b ∷ record { name = codes "c"; md5 = codes "3" } ∷ [])
      nothing
    ≡ report_of (line_a ∷ line_b ∷ []) (line_b ∷ record { name = codes "c"; md5 = codes "3" } ∷ [])
unfolding is_old same strcmp
classify-report_of_example =
    classify-report_of (line_a ∷ line_b ∷ [])
      (line_b ∷ record { name = codes "c"; md5 = codes "3" } ∷ []) (refl, (refl, tt))

two_lines-AreLines : AreLines (line_a ∷ line_b ∷ [])
unfolding lacks is_special is_space
two_lines-AreLines = (
  (refl, omega arith, omega arith),
  (refl, omega arith, omega arith),
  ((refl, omega arith, omega arith), (refl, omega arith, omega arith), tt),
)

read_old-status_example :
    read_old 2
      (put_commit 1 nothing (line_a ∷ line_b ∷ []))
      (status_start (put_commit 1 nothing (line_a ∷ line_b ∷ [])))
    ≡ some (line_a ∷ line_b ∷ [])
read_old-status_example =
    read_old-status 2 [] 1 nothing (line_a ∷ line_b ∷ []) two_lines-AreLines (omega arith)

read_old-overflow_example :
    read_old 1
      (put_commit 1 nothing (line_a ∷ line_b ∷ []))
      (status_start (put_commit 1 nothing (line_a ∷ line_b ∷ [])))
    ≡ none
read_old-overflow_example =
    read_old-overflow 1 [] 1 nothing (line_a ∷ line_b ∷ []) two_lines-AreLines (omega arith)

commit-Commits_example :
    Commits short_md5 short_md5-IsDigest directory 0 (commit short_md5 true (entries directory))
unfolding without_dots is_dot same strcmp lookup lacks is_special is_space
commit-Commits_example =
    commit-Commits short_md5 short_md5-IsDigest directory 0
      (record {
        files = (
          ((refl, omega arith, omega arith), refl),
          (((refl, omega arith, omega arith), refl), tt),
        );
        distinct = (refl, (refl, tt));
      })
      (omega arith) (inl (refl, refl))

last_of_two :
    logloser 1 (codes "# commit 1\n[new]\na\n\n# commit 2\n[new]\nb\n")
    ≡ some (codes "# commit 2\n[new]\nb\n")
unfolding logloser log_loop log_print seek_end scan_mark read_number print_rest show_commit
    print_before skip_space word scan_number number is_space is_digit put_int digits
last_of_two = refl

all_of_two :
    logloser 5 (codes "# commit 1\n[new]\na\n\n# commit 2\n[new]\nb\n")
    ≡ some (codes "# commit 2\n[new]\nb\n\n# commit 1\n[new]\na\n")
unfolding logloser log_loop log_print seek_end scan_mark read_number print_rest show_commit
    print_before skip_space word scan_number number is_space is_digit put_int digits
all_of_two = refl

abbrev history : List Section
history =
    record { number = 2; body = codes "[new_file]\nb\n" }
    ∷ record { number = 1; body = codes "[new_file]\na\n" }
    ∷ []

logloser-newest_example : logloser 1 (put_history history) ≡ some (newest 1 true history)
unfolding lacks smooth is_mark
logloser-newest_example =
    logloser-newest 1 history (omega arith) (((refl, refl), refl, ((refl, refl), refl)))

by_alias :
    main (some (codes "ci = commit\nlg = log\n")) (codes "lg") (codes "12") (some (codes "dir"))
    ≡ some (run_log (codes "dir") 12)
unfolding main alias_loop alias_found alias_command read_num number_loop same strcmp words flush
    is_space
by_alias = refl
