-- ===== src/Loser/Log.antt =====
-- MP1/main.c: `logloser`, which prints the last commits of the record, the newest first. `none` is
-- a number that was never read, or a word that does not fit into `tmps`.
pub mod Reads
pub mod Rounds
pub mod Shows
use sp.Prelude.{
  ℕ, zero, suc, ◌+◌, ◌-◌, ◌*◌, List, [], ◌∷◌, ◌++◌, Option, none, some, Bool, true, false, ◌&&◌,
  ◌||◌, ◌==◌, leb, if◌then◌else◌, length, get_or, drop,
}
use sp.Loser.Text.{Text, codes, is_space, is_digit, put_int}

unfoldable pub skip_space : Text → Text
unfolding is_space
skip_space [] = []
skip_space (c ∷ cs) = let later = skip_space cs in if is_space c then later else c ∷ cs

-- `%s` behind the letters `w`: the word, and what is behind it.
unfoldable pub word : Text → Text → Text × Text
unfolding is_space
word w [] = (w, [])
word w (c ∷ cs) = let later = word (w ++ c ∷ []) cs in if is_space c then (w, c ∷ cs) else later

-- `%d` behind digits of value `n`.
unfoldable pub number : ℕ → Text → ℕ × Text
unfolding is_digit
number n [] = (n, [])
number n (c ∷ cs) =
    let later = number (n * 10 + (c - b'0')) cs in if is_digit c then later else (n, c ∷ cs)

unfoldable pub scan_number : Text → Option (ℕ × Text)
unfolding number is_digit
scan_number [] = none
scan_number (c ∷ cs) = if is_digit c then some (number 0 (c ∷ cs)) else none

-- `fscanf(record, "%s%d", tmps, &tmpd)`: the number, and what is behind it.
unfoldable pub read_number : Text → Option (ℕ × Text)
unfolding skip_space word scan_number
read_number t =
    let w = word [] (skip_space t) in
    if length w.0 == 0 || leb 9 (length w.0) then none else scan_number (skip_space w.1)

-- Where the search for `#` ends: `previouslen`, the position behind the character read last, and
-- whether that is `#`.
unfoldable pub scan_mark : Text → ℕ → ℕ → ℕ × (ℕ × Bool)
scan_mark text zero previouslen = (previouslen + 1, (1, get_or text 0 0 == b'#'))
scan_mark text (suc p) previouslen =
    let later = scan_mark text p (previouslen + 1) in
    if get_or text (suc p) 0 == b'#' then (previouslen + 1, (p + 2, true)) else later

-- What is printed up to an empty line, a zero byte or the end, and what is left then.
unfoldable pub print_rest : ℕ → Text → Text × Text
print_rest pre_char [] = ([], [])
print_rest pre_char (c ∷ cs) =
    let later = print_rest c cs in
    if c == 0 || (pre_char == b'\n' && c == b'\n') then ([], cs) else (c ∷ later.0, later.1)

-- `previouslen`, `judout`, and the position in the file.
pub record State : Type 0 where
  pub previouslen : ℕ
  pub judout : Bool
  pub position : ℕ

-- Where `fseek` from the end leads; it fails in front of the file.
unfoldable pub seek_end : Text → State → ℕ
seek_end text s =
    if leb (s.previouslen + 1) (length text) then length text - (s.previouslen + 1) else s.position

abbrev pub commit_word : Text
commit_word = codes " commit "

unfoldable pub show_commit : Bool → Bool → ℕ → Text → Text
unfolding put_int
show_commit first found n rest =
    (if first then [] else b'\n' ∷ [])
    ++ ((if found then b'#' ∷ [] else []) ++ (commit_word ++ (put_int n ++ rest)))

-- What is printed in front of what a later run prints.
unfoldable pub print_before : Text → Option Text → Option Text
print_before t none = none
print_before t (some more) = some (t ++ more)

-- The rest of a round, from what `scan_mark` and `fscanf` gave; `next` are the later rounds.
unfoldable pub log_print :
    Bool → Text → ℕ × (ℕ × Bool) → Option (ℕ × Text) → (State → Option Text) → Option Text
unfolding print_rest show_commit print_before
log_print first text m none next = none
log_print first text m (some (n, rest)) next =
    let p = print_rest b'o' rest in
    print_before (show_commit first m.1.1 n p.0)
      (next (record { previouslen = m.0; judout = n == 1; position = length text - length p.1 }))

-- The loop over `i`, `left` rounds of it.
unfoldable pub log_loop : ℕ → Bool → Text → State → Option Text
unfolding seek_end scan_mark read_number log_print
log_loop zero first text s = some []
log_loop (suc left) first text s =
    if s.judout
    then some []
    else let m = scan_mark text (seek_end text s) s.previouslen in
      log_print first text m (read_number (drop m.1.0 text)) (log_loop left false text)

unfoldable pub logloser : ℕ → Text → Option Text
unfolding log_loop
logloser output_num record_text =
    log_loop output_num true record_text (record { previouslen = 0; judout = false; position = 0 })
