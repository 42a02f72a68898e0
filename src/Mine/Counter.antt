-- ===== src/Mine/Counter.antt =====
-- MP3/client/miner.c: the counter adds, in base 256 with the last byte the lowest.
use mathlib.Core.Path.{subst}
use sp.Prelude.{
  ℕ, zero, suc, ◌+◌, ◌*◌, ◌/◌, ◌%◌, ◌≤◌, ◌<◌, ◌≡◌, refl, sym, ap, ◌∙◌, inl, inr, List, [], ◌∷◌,
  ◌++◌, Bool, true, false, ltb, ◌==◌, length, length-append, get_or, set, arith, append_assoc,
  Bool-cases,
}
use sp.Mine.{carry_loop, next_append}

-- An array by its bytes from the last to the first.
unfoldable pub array : List ℕ → List ℕ
array [] = []
array (x ∷ r) = array r ++ x ∷ []

-- The number that the bytes make.
unfoldable pub number_of : List ℕ → ℕ
number_of [] = 0
number_of (x ∷ r) = x + 256 * number_of r

-- The first number that is too large for them.
unfoldable pub limit : List ℕ → ℕ
limit [] = 1
limit (x ∷ r) = 256 * limit r

-- Either the bytes hold the sum, or it does not fit.
pub data Adds (r back : List ℕ) (add : ℕ) : List ℕ × Bool → Type 0 where
  fits :
      (r' : List ℕ)
      → length r' ≡ length r
      → number_of r' ≡ number_of r + add
      → number_of r' < limit r
      → Adds r back add (array r' ++ back, false)
  over : (bytes : List ℕ) → limit r ≤ number_of r + add → Adds r back add (bytes, true)

length-array : (r : List ℕ) → length (array r) ≡ length r
unfolding array
length-array [] = refl
length-array (x ∷ r) = length-append (array r) (x ∷ []) ∙ omega (arith, length-array r)

at_end :
    (a : List ℕ) (x : ℕ) (back : List ℕ) (j : ℕ) → j ≡ length a → get_or (a ++ x ∷ back) j 0 ≡ x
at_end [] x back zero e = refl
at_end [] x back (suc j) e = absurd (omega arith)
at_end (y ∷ a) x back zero e = absurd (omega arith)
at_end (y ∷ a) x back (suc j) e = at_end a x back j (omega arith)

set_end :
    (a : List ℕ) (x y : ℕ) (back : List ℕ) (j : ℕ)
    → j ≡ length a
    → set (a ++ x ∷ back) j y ≡ a ++ y ∷ back
set_end [] x y back zero e = refl
set_end [] x y back (suc j) e = absurd (omega arith)
set_end (z ∷ a) x y back zero e = absurd (omega arith)
set_end (z ∷ a) x y back (suc j) e = ap (λ t. z ∷ t) (set_end a x y back j (omega arith))

-- A byte behind the array moves into it.
unsnoc : (r : List ℕ) (x : ℕ) (back : List ℕ) → array (x ∷ r) ++ back ≡ array r ++ x ∷ back
unfolding array
unsnoc r x back = append_assoc (array r) (x ∷ []) back

step_stop :
    (a : List ℕ) (x add : ℕ) (back : List ℕ) (j : ℕ)
    → j ≡ length a
    → ltb 255 (x + add) ≡ false
    → carry_loop (a ++ x ∷ back) (suc j) add ≡ (a ++ (x + add) ∷ back, false)
unfolding carry_loop
step_stop a x add back j e l =
    rw (carry_loop, at_end a x back j e, l, set_end a x (x + add) back j e)

step_over :
    (a : List ℕ) (x add : ℕ) (back : List ℕ)
    → ltb 255 (x + add) ≡ true
    → carry_loop (x ∷ back) 1 add ≡ (x ∷ back, true)
unfolding carry_loop
step_over a x add back l = rw l

step_carry :
    (a : List ℕ) (x add : ℕ) (back : List ℕ) (j : ℕ)
    → suc j ≡ length a
    → ltb 255 (x + add) ≡ true
    → carry_loop (a ++ x ∷ back) (suc (suc j)) add
      ≡ carry_loop (a ++ ((x + add) % 256) ∷ back) (suc j) ((x + add) / 256)
unfolding carry_loop
step_carry a x add back j e l =
    let n : (suc j == 0) ≡ false = ground arith in
    rw (carry_loop, at_end a x back (suc j) e, l, n, set_end a x ((x + add) % 256) back (suc j) e)

adds_behind :
    (x y add : ℕ) (r back : List ℕ) (o : List ℕ × Bool)
    → Adds (y ∷ r) (((x + add) % 256) ∷ back) ((x + add) / 256) o
    → Adds (x ∷ y ∷ r) back add o
unfolding number_of limit
adds_behind x y add r back _ (fits r' l n small) =
    subst (λ b. Adds (x ∷ y ∷ r) back add (b, false)) (unsnoc r' ((x + add) % 256) back)
      (fits (((x + add) % 256) ∷ r') (ap suc l) (omega arith) (omega arith))
adds_behind x y add r back _ (over bytes h) = over bytes (omega arith)

stopped :
    (x : ℕ) (r back : List ℕ) (add : ℕ)
    → number_of (x ∷ r) < limit (x ∷ r)
    → ltb 255 (x + add) ≡ false
    → Adds (x ∷ r) back add (array r ++ (x + add) ∷ back, false)
unfolding number_of limit
stopped x r back add h l =
    subst (λ b. Adds (x ∷ r) back add (b, false)) (unsnoc r (x + add) back)
      (fits ((x + add) ∷ r) refl (omega arith) (ground arith))

-- From the last byte of an array on, the loop adds to it.
carry-Adds :
    (x : ℕ) (r back : List ℕ) (add : ℕ)
    → number_of (x ∷ r) < limit (x ∷ r)
    → Adds (x ∷ r) back add (carry_loop (array r ++ x ∷ back) (suc (length r)) add)
unfolding array number_of limit
carry-Adds x [] back add h = elim (Bool-cases (ltb 255 (x + add))) [
  | inl l ↦
      subst (Adds (x ∷ []) back add) (sym (step_over [] x add back l))
        (over (x ∷ back) (ground arith))
  | inr l ↦
      subst (Adds (x ∷ []) back add) (sym (step_stop [] x add back 0 refl l))
        (stopped x [] back add h l)
]
carry-Adds x (y ∷ r) back add h = elim (Bool-cases (ltb 255 (x + add))) [
  | inl l ↦
      subst (Adds (x ∷ y ∷ r) back add)
        (sym (
          step_carry (array (y ∷ r)) x add back (length r) (sym (length-array (y ∷ r))) l
          ∙ ap (λ t. carry_loop t (suc (length r)) ((x + add) / 256))
              (unsnoc r y (((x + add) % 256) ∷ back))))
        (adds_behind x y add r back _
          (carry-Adds y r (((x + add) % 256) ∷ back) ((x + add) / 256) (omega arith)))
  | inr l ↦
      subst (Adds (x ∷ y ∷ r) back add)
        (sym (step_stop (array (y ∷ r)) x add back (suc (length r)) (sym (length-array (y ∷ r))) l))
        (stopped x (y ∷ r) back add h l)
]

-- The step from one array of at least one byte to the next: either it ends with as many bytes,
-- which make the old number and the number of miners together, the last byte the lowest, or that
-- sum is too large for so many bytes and the next length is said to start.
pub next_append-Adds :
    (x : ℕ) (r : List ℕ) (add : ℕ)
    → number_of (x ∷ r) < limit (x ∷ r)
    → Adds (x ∷ r) [] add (next_append (array (x ∷ r)) add)
unfolding next_append array
next_append-Adds x r add h =
    subst (Adds (x ∷ r) [] add)
      (ap (λ n. carry_loop (array r ++ x ∷ []) n add) (sym (length-array (x ∷ r))))
      (carry-Adds x r [] add h)
