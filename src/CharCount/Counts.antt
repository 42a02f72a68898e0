-- ===== src/CharCount/Counts.antt =====
-- MP0/ppp.c: what is printed is the number of the bytes in the set, line by line.
use sp.Prelude.{
  ℕ, ◌+◌, ◌<◌, ◌≡◌, refl, ap, ◌∙◌, inl, inr, List, [], ◌∷◌, ◌++◌, map, some, Bool, true, false,
  ◌||◌, ◌==◌, ltb, if◌then◌else◌, length, length-set, replicate, get_or, set, get_or-set,
  get_or-replicate, arith, Bool-cases,
}
use sp.Loser.Text.{Text}
use sp.Loser.Text.Laws.{lacks}
use sp.CharCount.{mark_loop, read_charoc, count_byte, end_of_file, count_loop, count_marked, main}

unfoldable pub among : Text → ℕ → Bool
among [] q = false
among (c ∷ cs) q = (c == q) || among cs q

unfoldable pub count_among : Text → Text → ℕ
unfolding among
count_among charset [] = 0
count_among charset (c ∷ cs) = (if among charset c then 1 else 0) + count_among charset cs

-- The bytes at a negative index, and in a line also those that end it.
unfoldable pub is_foreign : ℕ → Bool
is_foreign c = if ltb c 128 then false else true

unfoldable pub ends_line : ℕ → Bool
unfolding is_foreign
ends_line c = (c == b'\n') || ((c == 0) || is_foreign c)

unfoldable pub put_lines : List Text → Text
put_lines [] = []
put_lines (l ∷ ls) = l ++ b'\n' ∷ put_lines ls

abbrev pub AreLines : List Text → Type 0
AreLines [] = Unit {0}
AreLines (l ∷ ls) = (lacks ends_line l ≡ true) × AreLines ls

-- The array marks exactly the bytes of a set, beside those that were marked.
record Marks (charset : Text) (before after : List ℕ) : Type 0 where
  long : length after ≡ length before
  marked :
      (q : ℕ)
      → (get_or after q 0 == 0) ≡ (if among charset q then false else get_or before q 0 == 0)

mark_loop-Marks :
    (charset : Text) (before : List ℕ)
    → 128 < length before
    → lacks is_foreign charset ≡ true
    → (after : List ℕ) × (mark_loop charset before ≡ some after) × Marks charset before after
unfolding mark_loop lacks is_foreign among
mark_loop-Marks [] before l h = (before, refl, record { long = refl; marked = λ q. refl })
mark_loop-Marks (c ∷ cs) before l h =
    let small : ltb c 128 ≡ true = ground arith in
    let (after, e, m) =
      mark_loop-Marks cs (set before c 1) (omega (arith, length-set before c 1)) (ground arith) in
    (
      after,
      rw small e,
      record {
        long = m.long ∙ length-set before c 1;
        marked = λ q. let g = get_or-set before c q 1 0 (ground arith) in m.marked q ∙ ground arith;
      },
    )

module _ (front : ℕ → ℕ) (charset : Text) (charoc : List ℕ)
    (marked : (q : ℕ) → (get_or charoc q 0 == 0) ≡ (if among charset q then false else true)) where
  -- A byte below 128 counts when it is in the set.
  count_byte-among :
      (c ans : ℕ)
      → ltb c 128 ≡ true
      → count_byte front charoc c ans ≡ ans + (if among charset c then 1 else 0)
  unfolding count_byte read_charoc
  count_byte-among c ans small =
      let m = marked c in
      let e : ans + 0 ≡ ans = omega arith in
      elim (Bool-cases (among charset c)) [
        | inl a ↦ let m' = rw a at m in rw (small, m', a)
        | inr a ↦ let m' = rw a at m in rw (small, m', a, e)
      ]

  count_step :
      (c : ℕ) (cs : Text) (ans : ℕ)
      → ends_line c ≡ false
      → count_loop front charoc (c ∷ cs) ans
        ≡ count_loop front charoc cs (ans + (if among charset c then 1 else 0))
  unfolding count_loop ends_line is_foreign
  count_step c cs ans h =
      let no_zero : (c == 0) ≡ false = ground arith in
      let small : ltb c 128 ≡ true = ground arith in
      let no_end : (c == b'\n') ≡ false = ground arith in
      rw (count_loop, no_zero, no_end)
        (ap (count_loop front charoc cs) (count_byte-among c ans small))

  count_line :
      (l rest : Text) (ans : ℕ)
      → lacks ends_line l ≡ true
      → count_loop front charoc (l ++ b'\n' ∷ rest) ans
        ≡ (ans + count_among charset (l ++ b'\n' ∷ [])) ∷ count_loop front charoc rest 0
  unfolding lacks count_among count_loop
  count_line [] rest ans h =
      ap (λ n. n ∷ count_loop front charoc rest 0) (count_byte-among b'\n' ans refl ∙ omega arith)
  count_line (c ∷ l) rest ans h =
      count_step c (l ++ b'\n' ∷ rest) ans (ground arith)
      ∙ count_line l rest (ans + (if among charset c then 1 else 0)) (ground arith)
      ∙ ap (λ n. n ∷ count_loop front charoc rest 0) (omega arith)

  count_lines :
      (ls : List Text)
      → AreLines ls
      → count_loop front charoc (put_lines ls) 0
        ≡ map (λ l. count_among charset (l ++ b'\n' ∷ [])) ls
  unfolding count_loop put_lines end_of_file
  count_lines [] h = refl
  count_lines (l ∷ ls) (h, hs) =
      count_line l (put_lines ls) 0 h
      ∙ ap (λ n. n ∷ count_loop front charoc (put_lines ls) 0) (omega arith)
      ∙ ap (λ ns. count_among charset (l ++ b'\n' ∷ []) ∷ ns) (count_lines ls hs)

-- For a set of bytes below 128, and lines of bytes from 1 to 127 that all end with a newline, the
-- program prints for each line the number of its bytes that are in the set, its newline included,
-- whatever it reads in front of its array at the end of the file.
pub main-count_among :
    (front : ℕ → ℕ) (charset : Text) (ls : List Text)
    → lacks is_foreign charset ≡ true
    → AreLines ls
    → main front charset (some (put_lines ls))
      ≡ some (map (λ l. count_among charset (l ++ b'\n' ∷ [])) ls)
unfolding main count_marked
main-count_among front charset ls hc h =
    let (charoc, e, m) = mark_loop-Marks charset (replicate 300 0) (omega arith) hc in
    let from_zeros = λ (q : ℕ).
      m.marked q
      ∙ ap (λ n. if among charset q then false else (n == 0)) (get_or-replicate 300 q 0) in
    ap (count_marked front (put_lines ls)) e
    ∙ ap some (count_lines front charset charoc from_zeros ls h)
