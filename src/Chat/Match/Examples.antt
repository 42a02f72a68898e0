-- ===== src/Chat/Match/Examples.antt =====
-- MP4/MP4main.c: the parent's loop on a queue of three clients, the first of which crashes.
use sp.Prelude.{ℕ, ◌≡◌, refl, List, [], ◌∷◌, some, true, false, ◌==◌, if◌then◌else◌, arith}
use sp.Chat.Match.{
  Outcome, answer, broken, not_match, waits, paired, both, match, match_loop, fork_loop,
}
use sp.Chat.Match.Search.{search_queue, fork_loop-search_queue}

-- The filter of the client 4 crashes, that of 5 accepts nobody, the others accept everybody.
abbrev filters : ℕ → ℕ → Outcome
filters w fd = if w == 4 then broken else if w == 5 then answer false else answer true

abbrev queue : List ℕ
queue = 4 ∷ 5 ∷ 6 ∷ []

finds_six : fork_loop filters 4 7 queue 0 not_match ≡ some (paired 6)
unfolding fork_loop match match_loop both
finds_six = refl

waits_at_end : fork_loop filters 3 7 (5 ∷ 5 ∷ []) 0 not_match ≡ some waits
unfolding fork_loop match match_loop both
waits_at_end = refl

fork_loop-search_queue_example :
    fork_loop filters 4 7 queue 0 not_match ≡ some (search_queue filters 7 queue)
fork_loop-search_queue_example = fork_loop-search_queue filters 7 queue 4 not_match (omega arith)
