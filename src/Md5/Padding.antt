-- ===== src/Md5/Padding.antt =====
-- MP1/mmd5.c: the loop for the padded length, and the layout of the padded message.
use sp.Prelude.{
  ℕ, zero, suc, ◌+◌, ◌-◌, ◌*◌, ◌%◌, ◌≤◌, ◌<◌, ◌≡◌, ◌≢◌, refl, sym, ap, ◌∙◌, inl, inr, List, [], ◌∷◌,
  ◌++◌, some, ◌==◌, length, length-append, replicate, length-replicate, set, arith, append_assoc,
  Bool-cases, ltb, true, pos, rem,
}
use sp.Md5.{pad_loop, pad_fuel, is_padded, next_int, memcpy, padded, little_endian, wrap}

-- How far the next length of the right form is.
unfoldable pub missing : ℕ → ℕ
missing n = (960 - n % 512) % 512

pad_from :
    (fuel n : ℕ)
    → missing n < fuel
    → n + missing n < 2147483648
    → pad_loop fuel (pos n) ≡ some (pos (n + missing n))
unfolding pad_loop missing is_padded next_int rem
pad_from zero n h lt = absurd (omega arith)
pad_from (suc fuel) n h lt = elim (Bool-cases (n % 512 == 448)) [
  | inl e ↦ let z : n ≡ n + missing n = ground arith in rw (pad_loop, e) (ap (λ t. some (pos t)) z)
  | inr e ↦
      let next : (n + 1) + missing (n + 1) ≡ n + missing n = ground arith in
      let small : ltb n 2147483647 ≡ true = ground arith in
      rw (pad_loop, e, small)
        (pad_from fuel (n + 1) (ground arith) (ground arith) ∙ ap (λ t. some (pos t)) next)
]

-- Below 2 ^ 31 - 63 the loop ends within 512 rounds, at the first length from `n` on that is 448
-- modulo 512.
pub pad_loop-least :
    (n : ℕ)
    → n < 2147483585
    → (bits : ℕ) × (pad_loop pad_fuel (pos n) ≡ some (pos bits))
      × (bits % 512 ≡ 448)
      × (n ≤ bits)
      × (bits < n + 512)
      × ((m : ℕ) → n ≤ m → m < bits → m % 512 ≢ 448)
unfolding missing
pad_loop-least n lt = (
  n + missing n,
  pad_from pad_fuel n (omega arith) (omega arith),
  omega arith,
  omega arith,
  omega arith,
  λ m a b e. omega arith,
)

set-after : (pre post : List ℕ) (x y : ℕ) → set (pre ++ x ∷ post) (length pre) y ≡ pre ++ y ∷ post
set-after [] post x y = refl
set-after (z ∷ pre) post x y = ap (λ t. z ∷ t) (set-after pre post x y)

-- A copy replaces as many bytes as it has.
memcpy-between :
    (pre old post xs : List ℕ) (p : ℕ)
    → p ≡ length pre
    → length old ≡ length xs
    → memcpy (pre ++ (old ++ post)) p xs ≡ pre ++ (xs ++ post)
unfolding memcpy
memcpy-between pre [] post [] p e l = refl
memcpy-between pre [] post (x ∷ xs) p e l = absurd (omega arith)
memcpy-between pre (o ∷ old) post [] p e l = absurd (omega arith)
memcpy-between pre (o ∷ old) post (x ∷ xs) p e l =
    let s : set (pre ++ (o ∷ (old ++ post))) p x ≡ pre ++ (x ∷ (old ++ post)) =
      rw e (set-after pre (old ++ post) o x) in
    let r =
      memcpy-between (pre ++ x ∷ []) old post xs (p + 1)
        (ground (arith, length-append pre (x ∷ []))) (omega arith) in
    rw s (
      ap (λ t. memcpy t (p + 1) xs) (sym (append_assoc pre (x ∷ []) (old ++ post)))
      ∙ r
      ∙ append_assoc pre (x ∷ []) (xs ++ post))

replicate-append : (a b v : ℕ) → replicate (a + b) v ≡ replicate a v ++ replicate b v
replicate-append zero b v = let e : 0 + b ≡ b = omega arith in rw e
replicate-append (suc a) b v =
    let e : suc a + b ≡ suc (a + b) = omega arith in rw e (ap (λ t. v ∷ t) (replicate-append a b v))

-- `calloc` gives the space of the message, of the byte 128, of the zeros and of what follows.
space_lem :
    (m gap rest v : ℕ)
    → replicate (m + suc gap + rest) v
      ≡ replicate m v ++ (v ∷ (replicate gap v ++ replicate rest v))
space_lem m gap rest v =
    let e : m + suc gap + rest ≡ m + suc (gap + rest) = omega arith in
    rw e (
      replicate-append m (suc (gap + rest)) v
      ∙ ap (λ t. replicate m v ++ (v ∷ t)) (replicate-append gap rest v))

layout_lem :
    (m le old tail : List ℕ) (gap v p : ℕ)
    → length old ≡ length le
    → p ≡ length m + suc gap
    → memcpy
        (set
          (memcpy (replicate (length m) v ++ (v ∷ (replicate gap 0 ++ (old ++ tail)))) 0 m)
          (length m)
          128)
        p
        le
      ≡ m ++ (128 ∷ (replicate gap 0 ++ (le ++ tail)))
layout_lem m le old tail gap v p l e =
    let one =
      memcpy-between [] (replicate (length m) v) (v ∷ (replicate gap 0 ++ (old ++ tail))) m 0 refl
        (length-replicate (length m) v) in
    let front = m ++ (128 ∷ replicate gap 0) in
    let len = length-append m (128 ∷ replicate gap 0) in
    let len' : length (replicate {A = ℕ} gap 0) ≡ gap = length-replicate gap 0 in
    let q : p ≡ length front = omega arith in
    ap (λ t. memcpy (set t (length m) 128) p le) one
    ∙ ap (λ t. memcpy t p le) (set-after m (replicate gap 0 ++ (old ++ tail)) v 128)
    ∙ ap (λ t. memcpy t p le) (sym (append_assoc m (128 ∷ replicate gap 0) (old ++ tail)))
    ∙ memcpy-between front old tail le p q l
    ∙ append_assoc m (128 ∷ replicate gap 0) (le ++ tail)

four : (n : ℕ) → 4 ≡ length (little_endian n)
unfolding little_endian
four n = refl

-- The padded message is the message, the byte 128, zeros, the length in bits modulo 2 ^ 32, and
-- sixty zeros more, of which the first four belong to the last chunk.
pub padded-layout :
    (m : List ℕ) (gap : ℕ)
    → padded m (length m + suc gap)
      ≡ some (
          m ++ (128 ∷ (replicate gap 0 ++ (little_endian (wrap (8 * length m)) ++ replicate 60 0))))
unfolding padded
padded-layout m gap =
    let fits : ltb (length m) (length m + suc gap + 64) ≡ true = ground arith in
    rw (fits, space_lem (length m) gap 64 0)
      (ap some (
        layout_lem m (little_endian (wrap (8 * length m))) (0 ∷ 0 ∷ 0 ∷ 0 ∷ []) (replicate 60 0) gap
          0 (length m + suc gap) (four (wrap (8 * length m))) refl))
