-- ===== src/Loser/Log/Shows.antt =====
-- MP1/main.c: `logloser` prints the last commits of the record, the newest first.
use sp.Prelude.{
  ℕ, zero, suc, ◌+◌, ◌<◌, ◌≡◌, refl, sym, ap, ◌∙◌, inl, inr, List, [], ◌∷◌, ◌++◌, Option, some,
  Bool, true, false, ◌==◌, if◌then◌else◌, length, length-append, arith, append-nil, append_assoc,
}
use sp.Loser.Text.{Text, codes}
use sp.Loser.Classify.{Line, Report}
use sp.Loser.Record.{put_report, put_lines, put_commit}
use sp.Loser.Log.{State, show_commit, print_before, log_loop, logloser}
use sp.Loser.Log.Rounds.{
  Section, put_section, put_history, newest, IsHistory, IsGap, behind, section_lem, next_state,
  round_lem,
}

show_lem :
    (first : Bool) (c : Section)
    → show_commit first true c.number (b'\n' ∷ c.body)
      ≡ (if first then [] else b'\n' ∷ []) ++ put_section c
unfolding show_commit put_section
show_lem first c = refl

last_state :
    (c : Section) (gap after : Text) (position : ℕ)
    → c.number ≡ 1
    → (next_state c gap after position).judout ≡ true
unfolding next_state
last_state c gap after position one = ground (arith, one)

finished :
    (left : ℕ) (text : Text) (s : State) → s.judout ≡ true → log_loop left false text s ≡ some []
unfolding log_loop
finished zero text s e = refl
finished (suc left) text s e = rw (log_loop, e)

-- What the section and the gap add to what has been printed.
next_length :
    (c : Section) (gap after : Text)
    → length after + suc (length (behind c gap)) ≡ length (put_section c ++ (gap ++ after))
next_length c gap after =
    let e = length-append (behind c gap) after in rw (section_lem c gap after) (omega arith)

newest_nil : (left : ℕ) (first : Bool) → newest left first [] ≡ []
unfolding newest
newest_nil zero first = refl
newest_nil (suc left) first = refl

print_join :
    (first : Bool) (c : Section) (o : Option Text) (rest : Text)
    → o ≡ some rest
    → print_before (show_commit first true c.number (b'\n' ∷ c.body)) o
      ≡ some ((if first then [] else b'\n' ∷ []) ++ (put_section c ++ rest))
unfolding print_before
print_join first c o rest e =
    ap (print_before (show_commit first true c.number (b'\n' ∷ c.body))) e
    ∙ ap (λ t. some (t ++ rest)) (show_lem first c)
    ∙ ap some (append_assoc (if first then [] else b'\n' ∷ []) (put_section c) rest)

more_state :
    (c : Section) (gap after : Text) (position : ℕ)
    → (c.number == 1) ≡ false
    → (next_state c gap after position).judout ≡ false
unfolding next_state
more_state c gap after position more = more

next_state-length :
    (c : Section) (gap after : Text) (position : ℕ)
    → (next_state c gap after position).previouslen ≡ length (put_section c ++ (gap ++ after))
unfolding next_state
next_state-length c gap after position = next_length c gap after

-- The rounds from one state on print the newest commits of what has not been printed.
shows_from :
    (cs : List Section) (left : ℕ) (first : Bool) (gap after : Text) (s : State)
    → 0 < length cs
    → IsHistory cs
    → IsGap gap after
    → s.judout ≡ false
    → s.previouslen ≡ length after
    → log_loop left first (put_history cs ++ (gap ++ after)) s ≡ some (newest left first cs)
unfolding put_history newest log_loop
shows_from [] left first gap after s lt h g going prev = absurd (omega arith)
shows_from (c ∷ cs) zero first gap after s lt h g going prev = refl
shows_from (c ∷ []) (suc left) first gap after s lt (body, one) g going prev =
    let (position, e) = round_lem left first c [] gap after s body g going prev in
    let f =
      finished left (b'#' ∷ (behind c gap ++ after)) (next_state c gap after position)
        (last_state c gap after position one) in
    ap (λ t. log_loop (suc left) first t s) (section_lem c gap after)
    ∙ e
    ∙ print_join first c _ (newest left false []) (f ∙ ap some (sym (newest_nil left false)))
shows_from (c ∷ d ∷ older) (suc left) first gap after s lt (body, more, h) g going prev =
    let history = put_history (d ∷ older) in
    let pre = history ++ b'\n' ∷ [] in
    let after' = put_section c ++ (gap ++ after) in
    let (position, e) = round_lem left first c pre gap after s body g going prev in
    let ih =
      shows_from (d ∷ older) left false (b'\n' ∷ []) after' (next_state c gap after position)
        (omega arith) h (inr refl) (more_state c gap after position more)
        (next_state-length c gap after position) in
    let split : history ++ (b'\n' ∷ [] ++ after') ≡ pre ++ b'#' ∷ (behind c gap ++ after) =
      sym (append_assoc history (b'\n' ∷ []) after')
      ∙ ap (λ t. pre ++ t) (section_lem c gap after) in
    ap (λ t. log_loop (suc left) first t s)
      (append_assoc history (b'\n' ∷ put_section c) (gap ++ after) ∙ split)
    ∙ e
    ∙ print_join first c _ (newest left false (d ∷ older))
        (ap (λ t. log_loop left false t (next_state c gap after position)) (sym split) ∙ ih)

-- For a record of commits numbered from 1, without a `#`, a zero byte or an empty line in them,
-- `logloser` prints the given number of commits, or all when there are fewer, from the last on
-- backwards, each as it stands in the record, with an empty line between two.
pub logloser-newest :
    (n : ℕ) (cs : List Section)
    → 0 < length cs
    → IsHistory cs
    → logloser n (put_history cs) ≡ some (newest n true cs)
unfolding logloser
logloser-newest n cs lt h =
    ap (λ t. log_loop n true t (record { previouslen = 0; judout = false; position = 0 }))
      (sym (append-nil (put_history cs)))
    ∙ shows_from cs n true [] [] _ lt h (inl (refl, refl)) refl refl

-- What `commit` writes is such a section.
pub put_commit-put_section :
    (n : ℕ) (r : Report) (ls : List Line)
    → put_commit n r ls
      ≡ put_section
          (record { number = n; body = put_report r ++ (codes "(MD5)\n" ++ put_lines ls) })
unfolding put_commit put_section
put_commit-put_section n r ls = refl
