-- ===== src/Mine/Examples.antt =====
-- MP3/client/miner.c: a carry of the counter, and a step of it.
use sp.Prelude.{◌≡◌, refl, [], ◌∷◌, false, arith}
use sp.Mine.{next_append, carry_loop}
use sp.Mine.Counter.{Adds, array, number_of, limit, next_append-Adds}

carries : next_append (7 ∷ 254 ∷ []) 3 ≡ (8 ∷ 1 ∷ [], false)
unfolding next_append carry_loop
carries = refl

next_append-Adds_example : Adds (254 ∷ 7 ∷ []) [] 3 (next_append (array (254 ∷ 7 ∷ [])) 3)
unfolding number_of limit
next_append-Adds_example = next_append-Adds 254 (7 ∷ []) 3 (omega arith)
