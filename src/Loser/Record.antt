-- ===== src/Loser/Record.antt =====
-- MP1/main.c: the record of the commits, as `commit` writes it and as both commands read it.
pub mod Clean
pub mod RoundTrip
use sp.Prelude.{
  ℕ, zero, suc, ◌+◌, ◌-◌, List, [], ◌∷◌, ◌++◌, Option, none, some, ◌&&◌, leb, ltb, if◌then◌else◌,
  drop, length,
}
use sp.Loser.Text.{Text, codes, words, scan_int, put_int, find_back}
use sp.Loser.Classify.{Line, Report}

-- `printf("%s\n", ...)` for each
unfoldable pub put_names : List Text → Text
put_names [] = []
put_names (n ∷ ns) = n ++ b'\n' ∷ put_names ns

-- `fprintf(record, "%s %s\n", ...)` for each
unfoldable pub put_lines : List Line → Text
put_lines [] = []
put_lines (l ∷ ls) = l.name ++ b' ' ∷ (l.md5 ++ b'\n' ∷ put_lines ls)

-- What both commands print of a report.
unfoldable pub put_report : Report → Text
unfolding put_names
put_report r =
    codes "[new_file]\n"
    ++ (put_names r.new_file
        ++ (codes "[modified]\n"
            ++ (put_names r.modified ++ (codes "[copied]\n" ++ put_names r.copied))))

-- One commit: its number, its report and the digests.
unfoldable pub put_commit : ℕ → Report → List Line → Text
unfolding put_report put_lines put_int
put_commit number r lines =
    codes "# commit "
    ++ (put_int number ++ b'\n' ∷ (put_report r ++ (codes "(MD5)\n" ++ put_lines lines)))

-- Where `status` starts to read: behind the last parenthesis and the character after it.
unfoldable pub status_start : Text → ℕ
unfolding find_back
status_start record_text = elim (find_back b')' record_text (length record_text - 2)) [
  | none ↦ 1
  | some p ↦ p + 2
]

-- `commit` moves once more before it reads, so it does not see the last three characters.
unfoldable pub commit_start : Text → ℕ
unfolding find_back
commit_start record_text =
    if leb 4 (length record_text)
    then elim (find_back b')' record_text (length record_text - 4)) [ none ↦ 1 | some p ↦ p + 2 ]
    else length record_text - 2

-- The loop with `fscanf(record, "%s%s", ...)` over arrays of `room` elements. `none` is a write
-- behind an array, or the use of a digest that was not read because the words ended.
unfoldable pub read_lines : ℕ → List Text → Option (List Line)
read_lines room [] = some []
read_lines room (name ∷ []) = none
read_lines zero (name ∷ md5 ∷ ws) = none
read_lines (suc room) (name ∷ md5 ∷ ws) =
    if ltb (length name) 256 && ltb (length md5) 34
    then elim (read_lines room ws) [
      | none ↦ none
      | some lines ↦ some ((record { name = name; md5 = md5 }) ∷ lines)
    ]
    else none

unfoldable pub read_old : ℕ → Text → ℕ → Option (List Line)
unfolding words read_lines
read_old room record_text start = read_lines room (words [] (drop start record_text))

-- The number behind the last `#`; `none` is a number that was never set.
unfoldable pub last_number : Text → Option ℕ
unfolding find_back scan_int
last_number record_text =
    if leb 4 (length record_text)
    then elim (find_back b'#' record_text (length record_text - 4)) [
      | none ↦ none
      | some p ↦ scan_int (drop (p + 9) record_text)
    ]
    else none
