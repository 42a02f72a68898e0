-- ===== src/Mine/Team/Bytes.antt =====
-- MP3/client/miner.c: the bytes that a miner appends, as numbers.
use sp.Prelude.{
  ℕ, zero, suc, ◌+◌, ◌-◌, ◌*◌, ◌/◌, ◌%◌, ◌<◌, ◌≡◌, refl, sym, ap, ◌∙◌, inl, inr, List, [], ◌∷◌,
  ◌++◌, ltb, ◌==◌, length, length-append, replicate, get_or, set, arith, Bool-cases,
}
use sp.Mine.{carry_loop, next_append}
use sp.Mine.Miner.{first_append}
use sp.Mine.Counter.{array, number_of, limit}

-- Values of a byte.
pub data AreBytes : List ℕ → Type 0 where
  none_left : AreBytes []
  and_byte : {x : ℕ} {xs : List ℕ} → x < 256 → AreBytes xs → AreBytes (x ∷ xs)

AreBytes-head : {x : ℕ} {xs : List ℕ} → AreBytes (x ∷ xs) → x < 256
AreBytes-head (and_byte h hs) = h

AreBytes-tail : {x : ℕ} {xs : List ℕ} → AreBytes (x ∷ xs) → AreBytes xs
AreBytes-tail (and_byte h hs) = hs

get_or-byte : (xs : List ℕ) (j : ℕ) → AreBytes xs → get_or xs j 0 < 256
get_or-byte [] j h = omega arith
get_or-byte (x ∷ xs) zero h = AreBytes-head h
get_or-byte (x ∷ xs) (suc j) h = get_or-byte xs j (AreBytes-tail h)

set-AreBytes : (xs : List ℕ) (j v : ℕ) → AreBytes xs → v < 256 → AreBytes (set xs j v)
set-AreBytes [] j v h l = h
set-AreBytes (x ∷ xs) zero v h l = and_byte l (AreBytes-tail h)
set-AreBytes (x ∷ xs) (suc j) v h l =
    and_byte (AreBytes-head h) (set-AreBytes xs j v (AreBytes-tail h) l)

carry-AreBytes :
    (append : List ℕ) (j next_add : ℕ) → AreBytes append → AreBytes (carry_loop append j next_add).0
unfolding carry_loop
carry-AreBytes append zero next_add h = h
carry-AreBytes append (suc j) next_add h =
    let tmp = get_or append j 0 + next_add in
    elim (Bool-cases (ltb 255 tmp)) [
      | inl over ↦ elim (Bool-cases (j == 0)) [
        | inl first ↦ rw (over, first) h
        | inr later ↦
            rw (over, later)
              (carry-AreBytes (set append j (tmp % 256)) j (tmp / 256)
                (set-AreBytes append j (tmp % 256) h (omega arith)))
      ]
      | inr fits ↦ rw fits (set-AreBytes append j tmp h (ground arith))
    ]

-- The counter makes bytes of bytes.
pub next_append-AreBytes :
    (append : List ℕ) (add : ℕ) → AreBytes append → AreBytes (next_append append add).0
unfolding next_append
next_append-AreBytes append add h = carry-AreBytes append (length append) add h

pub AreBytes-append : {xs ys : List ℕ} → AreBytes xs → AreBytes ys → AreBytes (xs ++ ys)
AreBytes-append none_left k = k
AreBytes-append (and_byte h hs) k = and_byte h (AreBytes-append hs k)

pub array-AreBytes : (r : List ℕ) → AreBytes r → AreBytes (array r)
unfolding array
array-AreBytes [] h = none_left
array-AreBytes (x ∷ r) h =
    AreBytes-append (array-AreBytes r (AreBytes-tail h)) (and_byte (AreBytes-head h) none_left)

array_snoc : (l : List ℕ) (x : ℕ) → array (l ++ x ∷ []) ≡ x ∷ array l
unfolding array
array_snoc [] x = refl
array_snoc (y ∷ l) x = ap (λ t. t ++ y ∷ []) (array_snoc l x)

-- Turned twice, the bytes stand as they stood.
pub array-array : (r : List ℕ) → array (array r) ≡ r
unfolding array
array-array [] = refl
array-array (x ∷ r) = array_snoc (array r) x ∙ ap (λ t. x ∷ t) (array-array r)

pub length-array : (r : List ℕ) → length (array r) ≡ length r
unfolding array
length-array [] = refl
length-array (x ∷ r) = length-append (array r) (x ∷ []) ∙ omega (arith, length-array r)

-- Bytes of one length that make the same number are the same.
pub number_of-injective :
    (r r' : List ℕ)
    → AreBytes r
    → AreBytes r'
    → length r ≡ length r'
    → number_of r ≡ number_of r'
    → r ≡ r'
unfolding number_of
number_of-injective [] [] h k l e = refl
number_of-injective [] (y ∷ r') h k l e = absurd (omega arith)
number_of-injective (x ∷ r) [] h k l e = absurd (omega arith)
number_of-injective (x ∷ r) (y ∷ r') h k l e =
    let here : x ≡ y = omega (arith, AreBytes-head h, AreBytes-head k) in
    let rest : number_of r ≡ number_of r' = omega (arith, AreBytes-head h, AreBytes-head k) in
    let same : r ≡ r' =
      number_of-injective r r' (AreBytes-tail h) (AreBytes-tail k) (omega arith) rest in
    cc

pub number_of-lt-limit : (r : List ℕ) → AreBytes r → number_of r < limit r
unfolding number_of limit
number_of-lt-limit [] h = omega arith
number_of-lt-limit (x ∷ r) h =
    omega (arith, AreBytes-head h, number_of-lt-limit r (AreBytes-tail h))

-- The limit is the same for as many bytes.
pub limit-length : (r r' : List ℕ) → length r ≡ length r' → limit r ≡ limit r'
unfolding limit
limit-length [] [] e = refl
limit-length [] (y ∷ r') e = absurd (omega arith)
limit-length (x ∷ r) [] e = absurd (omega arith)
limit-length (x ∷ r) (y ∷ r') e = ap (λ t. 256 * t) (limit-length r r' (omega arith))

-- The first bytes of a length, the last one first.
abbrev pub first_digits : ℕ → ℕ → List ℕ
first_digits start left = (start % 256) ∷ replicate left 0

set_last : (left x : ℕ) → set (replicate (suc left) 0) left x ≡ array (x ∷ replicate left 0)
unfolding array
set_last left x = set_zeros left x ∙ ap (λ t. t ++ x ∷ []) (zeros left)
  where
    zeros_snoc : (m : ℕ) → ◌≡◌ {A = List ℕ} (replicate m 0 ++ 0 ∷ []) (0 ∷ replicate m 0)
    zeros_snoc zero = refl
    zeros_snoc (suc m) = ap (λ t. 0 ∷ t) (zeros_snoc m)

    zeros : (m : ℕ) → replicate m 0 ≡ array (replicate m 0)
    zeros zero = refl
    zeros (suc m) = sym (zeros_snoc m) ∙ ap (λ t. t ++ 0 ∷ []) (zeros m)

    set_zeros : (m y : ℕ) → set (replicate (suc m) 0) m y ≡ replicate m 0 ++ y ∷ []
    set_zeros zero y = refl
    set_zeros (suc m) y = ap (λ t. 0 ∷ t) (set_zeros m y)

pub first_append-array :
    (start left : ℕ) → first_append start (suc left) ≡ array (first_digits start left)
unfolding first_append
first_append-array start left =
    let e : suc left - 1 ≡ left = omega arith in rw e (set_last left (start % 256))

zeros-number : (left : ℕ) → number_of (replicate left 0) ≡ 0
unfolding number_of
zeros-number zero = refl
zeros-number (suc left) = omega (arith, zeros-number left)

pub first_digits-number :
    (start left : ℕ) → start < 256 → number_of (first_digits start left) ≡ start
unfolding number_of
first_digits-number start left h = omega (arith, zeros-number left)

zeros-AreBytes : (left : ℕ) → AreBytes (replicate left 0)
zeros-AreBytes zero = none_left
zeros-AreBytes (suc left) = and_byte (omega arith) (zeros-AreBytes left)

pub first_digits-AreBytes : (start left : ℕ) → AreBytes (first_digits start left)
first_digits-AreBytes start left = and_byte (omega arith) (zeros-AreBytes left)
