-- ===== src/Loser/Record/RoundTrip.antt =====
-- MP1/main.c: what `commit` writes is read back by `status` and by the next `commit`.
use sp.Prelude.{
  ℕ, suc, ◌+◌, ◌-◌, ◌≤◌, ◌<◌, ◌≡◌, refl, sym, ◌∙◌, List, [], ◌∷◌, ◌++◌, none, some, true, leb,
  length, length-append, drop, arith, append_assoc,
}
use sp.Loser.Text.{Text, codes, is_digit, scan_int, put_int, find_back}
use sp.Loser.Text.Laws.{
  lacks, lacks-append, scan_int-put_int, find_back-last, drop-append, put_int-lacks,
}
use sp.Loser.Classify.{Line, Report}
use sp.Loser.Record.{
  put_lines, put_report, put_commit, status_start, commit_start, read_old, last_number,
}
use sp.Loser.Record.Clean.{
  is_mark, is_close, AreLines, IsMarkless, special-close, special-mark, words-put_lines,
  read_lines-flat, read_lines-overflow, lacks-put_lines, lacks-put_report,
}

put_lines_long : (ls : List Line) → 0 < length ls → 2 ≤ length (put_lines ls)
unfolding put_lines
put_lines_long [] h = absurd (omega arith)
put_lines_long (l ∷ ls) h =
    let t = length-append l.name (b' ' ∷ (l.md5 ++ b'\n' ∷ put_lines ls)) in
    let u = length-append l.md5 (b'\n' ∷ put_lines ls) in omega arith

status_start_at :
    (t : Text) (i p : ℕ) → length t - 2 ≡ i → find_back b')' t i ≡ some p → status_start t ≡ p + 2
unfolding status_start
status_start_at t i p e h = let h' = rw (sym e) at h in rw (status_start, h')

commit_start_at :
    (t : Text) (i p : ℕ)
    → leb 4 (length t) ≡ true
    → length t - 4 ≡ i
    → find_back b')' t i ≡ some p
    → commit_start t ≡ p + 2
unfolding commit_start
commit_start_at t i p long e h = let h' = rw (sym e) at h in rw (long, h')

last_number_at :
    (t : Text) (i p : ℕ)
    → leb 4 (length t) ≡ true
    → length t - 4 ≡ i
    → find_back b'#' t i ≡ some p
    → last_number t ≡ scan_int (drop (p + 9) t)
unfolding last_number
last_number_at t i p long e h = let h' = rw (sym e) at h in rw (long, h')

-- The commit up to the last parenthesis.
before_close : ℕ → Report → Text
before_close n r = codes "# commit " ++ (put_int n ++ b'\n' ∷ (put_report r ++ codes "(MD5"))

put_commit-close :
    (n : ℕ) (r : Report) (ls : List Line)
    → put_commit n r ls ≡ before_close n r ++ b')' ∷ b'\n' ∷ put_lines ls
unfolding put_commit before_close
put_commit-close n r ls = simp append_assoc

module _ (room : ℕ) (pre : Text) (n : ℕ) (r : Report) (ls : List Line) (lines : AreLines ls) where
  a : Text
  a = pre ++ before_close n r

  text_lem : pre ++ put_commit n r ls ≡ a ++ b')' ∷ b'\n' ∷ put_lines ls
  unfolding a
  text_lem = rw (put_commit-close n r ls) (simp append_assoc)

  behind : drop (length a + 2) (pre ++ put_commit n r ls) ≡ put_lines ls
  behind = rw text_lem (drop-append a (b')' ∷ b'\n' ∷ put_lines ls) 2)

  no_close : lacks is_close (b'\n' ∷ put_lines ls) ≡ true
  unfolding lacks is_close
  no_close = lacks-put_lines is_close ls special-close refl refl lines

  found :
      (i : ℕ)
      → i ≤ suc (length (put_lines ls))
      → find_back b')' (pre ++ put_commit n r ls) (length a + i) ≡ some (length a)
  unfolding is_close
  found i le = rw text_lem (find_back-last b')' a (b'\n' ∷ put_lines ls) i no_close le)

  total : length (pre ++ put_commit n r ls) ≡ length a + suc (suc (length (put_lines ls)))
  total = rw text_lem (length-append a (b')' ∷ b'\n' ∷ put_lines ls))

  read : length ls ≤ room → read_old room (pre ++ put_commit n r ls) (length a + 2) ≡ some ls
  unfolding read_old
  read le = rw (behind, words-put_lines ls lines) (read_lines-flat room ls lines le)

  -- The names of the last commit have 1 to 255 bytes and its digests 1 to 33, none of them white
  -- space, `)` or `#`. `status` reads them, whatever stands before that commit, when they fit into its arrays.
  pub read_old-status :
      length ls ≤ room
      → read_old room (pre ++ put_commit n r ls) (status_start (pre ++ put_commit n r ls)) ≡ some ls
  read_old-status le =
      rw
        (status_start_at (pre ++ put_commit n r ls) (length a + length (put_lines ls)) (length a)
          (omega (arith, total)) (found (length (put_lines ls)) (omega arith)))
        (read le)

  -- The names of the last commit have 1 to 255 bytes and its digests 1 to 33, none of them white
  -- space, `)` or `#`. When it records more files than the directory has entries now, which is the room of the
  -- arrays, `status` writes behind them, whatever stands before that commit.
  pub read_old-overflow :
      room < length ls
      → read_old room (pre ++ put_commit n r ls) (status_start (pre ++ put_commit n r ls)) ≡ none
  unfolding read_old
  read_old-overflow lt =
      rw
        (
          status_start_at (pre ++ put_commit n r ls) (length a + length (put_lines ls)) (length a)
              (omega (arith, total)) (found (length (put_lines ls)) (omega arith)),
          behind,
          words-put_lines ls lines,
        )
        (read_lines-overflow room ls lines lt)

  -- `commit` reads the digests of the last commit too, when there is one.
  pub read_old-commit :
      length ls ≤ room
      → 0 < length ls
      → read_old room (pre ++ put_commit n r ls) (commit_start (pre ++ put_commit n r ls)) ≡ some ls
  read_old-commit le some_line =
      let long = put_lines_long ls some_line in
      rw
        (commit_start_at (pre ++ put_commit n r ls) (length a + (length (put_lines ls) - 2))
          (length a) (ground (arith, total)) (omega (arith, total))
          (found (length (put_lines ls) - 2) (omega arith)))
        (read le)

  after_mark : Text
  after_mark =
      codes " commit " ++ (put_int n ++ b'\n' ∷ (put_report r ++ (codes "(MD5)\n" ++ put_lines ls)))

  mark_lem : put_commit n r ls ≡ b'#' ∷ after_mark
  unfolding put_commit after_mark
  mark_lem = refl

  after_mark_long : 3 ≤ length after_mark
  unfolding after_mark
  after_mark_long = omega arith

  number : scan_int (drop 9 (b'#' ∷ after_mark)) ≡ some n
  unfolding after_mark is_digit
  number = scan_int-put_int n b'\n' _ refl

  no_mark : IsMarkless r → lacks is_mark after_mark ≡ true
  unfolding lacks is_mark after_mark
  no_mark h = lacks-append is_mark (put_int n) _ (put_int-lacks is_mark n (λ d lt. ground arith)) (
      lacks-append is_mark (put_report r) _ (lacks-put_report r h)
        (lacks-put_lines is_mark ls special-mark refl refl lines))

  -- And `commit` finds the number of the last commit.
  pub last_number-commit : IsMarkless r → last_number (pre ++ put_commit n r ls) ≡ some n
  unfolding is_mark
  last_number-commit h =
      let t = length-append pre (b'#' ∷ after_mark) in
      let l = after_mark_long in
      let place : find_back b'#' (pre ++ b'#' ∷ after_mark) (length pre + (length after_mark - 3))
          ≡ some (length pre) =
        find_back-last b'#' pre after_mark (length after_mark - 3) (no_mark h) (omega arith) in
      rw mark_lem (
        last_number_at (pre ++ b'#' ∷ after_mark) (length pre + (length after_mark - 3))
          (length pre) (ground arith) (omega arith) place
        ∙ rw (drop-append pre (b'#' ∷ after_mark) 9) number)
