-- ===== src/Loser/Log/Rounds.antt =====
-- MP1/main.c: one round of `logloser` on a record made of commits.
use sp.Prelude.{
  ℕ, zero, suc, ◌+◌, ◌-◌, ◌≡◌, ap, ◌∙◌, inl, inr, ◌⊎◌, List, [], ◌∷◌, ◌++◌, Option, some, Bool,
  true, false, ◌==◌, leb, if◌then◌else◌, length, length-append, drop, arith, append-nil,
  append_assoc,
}
use sp.Loser.Text.{Text, put_int}
use sp.Loser.Text.Laws.{lacks, lacks-append, put_int-lacks, drop-append}
use sp.Loser.Record.Clean.{is_mark}
use sp.Loser.Log.{
  State, commit_word, scan_mark, read_number, print_rest, seek_end, show_commit, print_before,
  log_print, log_loop,
}
use sp.Loser.Log.Reads.{
  smooth, print_rest-end, print_rest-stop, read_number-put_int, scan_mark-last,
}

-- One commit of the record: its number and what stands behind that line.
pub record Section : Type 0 where
  pub number : ℕ
  pub body : Text

unfoldable pub put_section : Section → Text
put_section c = b'#' ∷ (commit_word ++ (put_int c.number ++ b'\n' ∷ c.body))

-- The record, from the newest commit to the oldest.
unfoldable pub put_history : List Section → Text
unfolding put_section
put_history [] = []
put_history (c ∷ []) = put_section c
put_history (c ∷ d ∷ older) = put_history (d ∷ older) ++ b'\n' ∷ put_section c

-- The first `left` commits, with an empty line between two of them.
unfoldable pub newest : ℕ → Bool → List Section → Text
unfolding put_section
newest zero first cs = []
newest (suc left) first [] = []
newest (suc left) first (c ∷ older) =
    (if first then [] else b'\n' ∷ []) ++ (put_section c ++ newest left false older)

abbrev pub IsBody : Text → Type 0
IsBody body = (lacks is_mark body ≡ true) × (smooth b'\n' body ≡ true)

-- The oldest commit, and only it, has the number 1; no body has a `#`, a zero byte or an empty line.
abbrev pub IsHistory : List Section → Type 0
IsHistory [] = Unit {0}
IsHistory (c ∷ []) = IsBody c.body × (c.number ≡ 1)
IsHistory (c ∷ d ∷ older) = IsBody c.body × ((c.number == 1) ≡ false) × IsHistory (d ∷ older)

-- Between what is to be printed and what has been printed there is a newline, or both are at the end.
abbrev pub IsGap : Text → Text → Type 0
IsGap gap after = ((gap ≡ []) × (after ≡ [])) ⊎ (gap ≡ b'\n' ∷ [])

print_lem :
    (c : Section) (gap after : Text)
    → IsBody c.body
    → IsGap gap after
    → (left : Text) × (print_rest b'o' (b'\n' ∷ (c.body ++ (gap ++ after)))
        ≡ (b'\n' ∷ c.body, left))
unfolding print_rest
print_lem c gap after (_, s) (inl (g, a)) =
    ([], rw (g, a, append-nil, print_rest-end b'\n' c.body s))
print_lem c gap after (_, s) (inr g) = (after, rw (g, print_rest-stop b'\n' c.body after s))

-- What stands behind the `#` of a commit, up to what has been printed.
pub behind : Section → Text → Text
behind c gap = commit_word ++ (put_int c.number ++ b'\n' ∷ (c.body ++ gap))

behind-lacks :
    (c : Section) (gap after : Text)
    → IsBody c.body
    → IsGap gap after
    → lacks is_mark (behind c gap) ≡ true
unfolding behind lacks is_mark
behind-lacks c gap after (h, _) g =
    lacks-append is_mark (put_int c.number) (b'\n' ∷ (c.body ++ gap))
      (put_int-lacks is_mark c.number (λ d lt. ground arith))
      (lacks-append is_mark c.body gap h (plain_gap g))
  where
    plain_gap : IsGap gap after → lacks is_mark gap ≡ true
    plain_gap (inl (e, _)) = rw e
    plain_gap (inr e) = rw e

pub section_lem :
    (c : Section) (gap after : Text)
    → put_section c ++ (gap ++ after) ≡ b'#' ∷ (behind c gap ++ after)
unfolding put_section behind
section_lem c gap after = simp append_assoc

behind_lem :
    (c : Section) (gap after : Text)
    → behind c gap ++ after
      ≡ commit_word ++ (put_int c.number ++ b'\n' ∷ (c.body ++ (gap ++ after)))
unfolding behind
behind_lem c gap after = simp append_assoc

seek_lem :
    (pre rest after : Text) (s : State)
    → s.previouslen ≡ length after
    → seek_end (pre ++ b'#' ∷ (rest ++ after)) s ≡ length pre + length rest
unfolding seek_end
seek_lem pre rest after s e =
    let a = length-append pre (b'#' ∷ (rest ++ after)) in
    let b = length-append rest after in
    let inside : leb (s.previouslen + 1) (length (pre ++ b'#' ∷ (rest ++ after))) ≡ true =
      ground arith in
    rw inside (omega arith)

unfoldable pub next_state : Section → Text → Text → ℕ → State
next_state c gap after position = record {
  previouslen = length after + suc (length (behind c gap));
  judout = c.number == 1;
  position = position;
}

print_step :
    (first : Bool) (text : Text) (c : Section) (gap after : Text) (p : ℕ)
    (next : State → Option Text)
    → IsBody c.body
    → IsGap gap after
    → (position : ℕ) × (log_print first text
          (length after + suc (length (behind c gap)), (p, true))
          (some (c.number, b'\n' ∷ (c.body ++ (gap ++ after))))
          next
        ≡ print_before
            (show_commit first true c.number (b'\n' ∷ c.body))
            (next (next_state c gap after position)))
unfolding log_print next_state
print_step first text c gap after p next body g =
    let (rest, shown) = print_lem c gap after body g in
    (
      length text - length rest,
      ap
          (λ (p : Text × Text).
            (print_before (show_commit first true c.number p.0)
              (next (next_state c gap after (length text - length p.1)))))
          shown,
    )

scan_step :
    (c : Section) (pre gap after : Text) (s : State)
    → IsBody c.body
    → IsGap gap after
    → s.previouslen ≡ length after
    → scan_mark
        (pre ++ b'#' ∷ (behind c gap ++ after))
        (seek_end (pre ++ b'#' ∷ (behind c gap ++ after)) s)
        s.previouslen
      ≡ (length after + suc (length (behind c gap)), (length pre + 1, true))
scan_step c pre gap after s body g prev =
    rw (seek_lem pre (behind c gap) after s prev, prev)
      (scan_mark-last pre (behind c gap) after (length (behind c gap)) (length after)
        (behind-lacks c gap after body g) (omega arith))

read_step :
    (c : Section) (pre gap after : Text)
    → read_number (drop (length pre + 1) (pre ++ b'#' ∷ (behind c gap ++ after)))
      ≡ some (c.number, b'\n' ∷ (c.body ++ (gap ++ after)))
read_step c pre gap after =
    ap read_number (drop-append pre (b'#' ∷ (behind c gap ++ after)) 1 ∙ behind_lem c gap after)
    ∙ read_number-put_int c.number (c.body ++ (gap ++ after))

-- One round prints the commit in front of what has been printed.
pub round_lem :
    (left : ℕ) (first : Bool) (c : Section) (pre gap after : Text) (s : State)
    → IsBody c.body
    → IsGap gap after
    → s.judout ≡ false
    → s.previouslen ≡ length after
    → (position : ℕ) × (log_loop (suc left) first (pre ++ b'#' ∷ (behind c gap ++ after)) s
        ≡ print_before (show_commit first true c.number (b'\n' ∷ c.body)) (
            log_loop left false
              (pre ++ b'#' ∷ (behind c gap ++ after))
              (next_state c gap after position)))
round_lem left first c pre gap after s body g going prev =
    let text = pre ++ b'#' ∷ (behind c gap ++ after) in
    let (position, e) =
      print_step first text c gap after (length pre + 1) (log_loop left false text) body g in
    (
      position,
      unfold log_loop in
          rw (log_loop, going, scan_step c pre gap after s body g prev, read_step c pre gap after)
            e,
    )
