-- ===== src/CharCount/Examples.antt =====
-- MP0/ppp.c: small inputs.
use sp.Prelude.{ℕ, ◌≡◌, ◌++◌, true, map, List, arith, refl, [], ◌∷◌, some, none}
use sp.Loser.Text.{Text, codes}
use sp.Loser.Text.Laws.{lacks}
use sp.CharCount.{read_charoc, count_byte, end_of_file, mark_loop, count_loop, count_marked, main}
use sp.CharCount.Counts.{is_foreign, ends_line, put_lines, AreLines, count_among, main-count_among}

abbrev ones : ℕ → ℕ
ones _ = 1

two_lines : main ones (codes "ab") (some (codes "abcab\nxyz\nb")) ≡ some (4 ∷ 0 ∷ [])
unfolding main mark_loop count_marked count_loop count_byte read_charoc end_of_file
two_lines = refl

-- A byte of 128 or more counts by what lies in front of the array, and cannot be in the set.
negative_index : main ones (codes "ab") (some (200 ∷ b'\n' ∷ [])) ≡ some (1 ∷ [])
unfolding main mark_loop count_marked count_loop count_byte read_charoc end_of_file
negative_index = refl

negative_write : main ones (200 ∷ []) (some []) ≡ none
unfolding main mark_loop count_marked
negative_write = refl

abbrev words : List Text
words = codes "abc" ∷ [] ∷ codes "b a" ∷ []

letters-lacks : lacks is_foreign (codes "ab") ≡ true
unfolding lacks is_foreign
letters-lacks = refl

words-AreLines : AreLines words
unfolding lacks ends_line is_foreign
words-AreLines = ground arith

main-count_among_example :
    main ones (codes "ab") (some (put_lines words))
    ≡ some (map (λ l. count_among (codes "ab") (l ++ b'\n' ∷ [])) words)
main-count_among_example = main-count_among ones (codes "ab") words letters-lacks words-AreLines
