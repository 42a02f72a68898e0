-- ===== src/Mine/Zeros.antt =====
-- MP3/client/miner.c: a digest is a treasure for exactly the number of its leading zeros.
use sp.Prelude.{ℕ, zero, suc, ◌+◌, ◌≡◌, refl, ◌∙◌, List, [], ◌∷◌, false, ◌==◌, if◌then◌else◌, arith}
use sp.Mine.{zero_loop, is_treasure}

unfoldable leading_zeros : List ℕ → ℕ
leading_zeros [] = 0
leading_zeros (c ∷ cs) = if c == b'0' then suc (leading_zeros cs) else 0

-- The loop on the rest of the text.
loop_tail :
    (c : ℕ) (cs : List ℕ) (j left : ℕ) → zero_loop (c ∷ cs) (suc j) left ≡ zero_loop cs j left
unfolding zero_loop
loop_tail c cs j zero = refl
loop_tail c cs j (suc left) =
    let e : suc j + 1 ≡ suc (j + 1) = omega arith in rw (e, loop_tail c cs (j + 1) left)

treasure_cons :
    (c : ℕ) (cs : List ℕ) (n : ℕ)
    → is_treasure (c ∷ cs) (suc n) ≡ (if c == b'0' then is_treasure cs n else false)
unfolding is_treasure zero_loop
treasure_cons c cs n = let e : 0 + 1 ≡ 1 = omega arith in rw (e, loop_tail c cs 0 n) (ground arith)

-- A digest is found to be a treasure of a size exactly if it begins with so many zeros and no more.
is_treasure-leading_zeros : (md5 : List ℕ) (n : ℕ) → is_treasure md5 n ≡ (leading_zeros md5 == n)
unfolding leading_zeros is_treasure zero_loop
is_treasure-leading_zeros [] zero = refl
is_treasure-leading_zeros [] (suc n) = ground arith
is_treasure-leading_zeros (c ∷ cs) zero = ground arith
is_treasure-leading_zeros (c ∷ cs) (suc n) =
    treasure_cons c cs n ∙ ground (arith, is_treasure-leading_zeros cs n)
