-- ===== src/Loser/Text/Laws.antt =====
-- MP1/main.c: laws of the texts: what is printed is read back.
use sp.Prelude.{
  ℕ, zero, suc, ◌+◌, ◌/◌, ◌%◌, ◌≤◌, ◌<◌, ◌≡◌, refl, ap, ◌∙◌, inl, inr, [], ◌∷◌, ◌++◌, some, Bool,
  true, false, ◌==◌, ltb, if◌then◌else◌, get_or, length, drop, arith, append-nil, append_assoc,
  Bool-cases,
}
use sp.Loser.Text.{
  Text, strcmp, same, is_space, flush, words, is_digit, value, scan_int, digits, put_int, find_back,
}

pub same_refl : (a : Text) → same a a ≡ true
unfolding same strcmp
same_refl [] = refl
same_refl (x ∷ xs) = ground (arith, same_refl xs)

pub same→≡ : (a b : Text) → same a b ≡ true → a ≡ b
unfolding same strcmp
same→≡ [] [] h = refl
same→≡ [] (y ∷ ys) h = cc
same→≡ (x ∷ xs) [] h = cc
same→≡ (x ∷ xs) (y ∷ ys) h = ground (arith, same→≡ xs ys)

pub same_sym : (a b : Text) → same a b ≡ same b a
same_sym a b = elim (Bool-cases (same a b)) [
  | inl e ↦ let p = same→≡ a b e in rw p
  | inr e ↦ elim (Bool-cases (same b a)) [
    | inl e' ↦ let p = same→≡ b a e' in rw p
    | inr e' ↦ rw (e, e')
  ]
]

-- No byte of the text satisfies the test.
unfoldable pub lacks : (ℕ → Bool) → Text → Bool
lacks bad [] = true
lacks bad (c ∷ cs) = if bad c then false else lacks bad cs

pub lacks-append :
    (bad : ℕ → Bool) (a b : Text)
    → lacks bad a ≡ true
    → lacks bad b ≡ true
    → lacks bad (a ++ b) ≡ true
unfolding lacks
lacks-append bad [] b ha hb = hb
lacks-append bad (x ∷ a) b ha hb = ground (arith, lacks-append bad a b)

words_from :
    (w v rest : Text) (s : ℕ)
    → lacks is_space v ≡ true
    → is_space s ≡ true
    → words w (v ++ s ∷ rest) ≡ flush (w ++ v) (words [] rest)
unfolding words lacks
words_from w [] rest s h hs = rw (hs, append-nil)
words_from w (c ∷ v) rest s h hs = elim (Bool-cases (is_space c)) [
  | inl e ↦ let h' = rw e at h in cc
  | inr e ↦ let h' = rw e at h in rw e (words_from (w ++ c ∷ []) v rest s h' hs ∙ rw append_assoc)
]

-- A word and the white space behind it are read as that word.
pub words-append :
    (c : ℕ) (v rest : Text) (s : ℕ)
    → lacks is_space (c ∷ v) ≡ true
    → is_space s ≡ true
    → words [] ((c ∷ v) ++ s ∷ rest) ≡ (c ∷ v) ∷ words [] rest
unfolding flush
words-append c v rest s h hs = words_from [] (c ∷ v) rest s h hs

value-digits :
    (fuel n : ℕ) (rest : Text) → n < fuel → value 0 (digits fuel n ++ rest) ≡ value n rest
unfolding value digits is_digit
value-digits zero n rest h = absurd (omega arith)
value-digits (suc fuel) n rest h = elim (Bool-cases (ltb n 10)) [
  | inl e ↦ rw e (ground arith)
  | inr e ↦
      rw (e, append_assoc)
        (value-digits fuel (n / 10) ((b'0' + n % 10) ∷ rest) (ground arith) ∙ ground arith)
]

pub digits-starts :
    (fuel n : ℕ) → n < fuel → (c : ℕ) × (cs : Text) × (digits fuel n ≡ c ∷ cs) × (is_digit c ≡ true)
unfolding digits is_digit
digits-starts zero n h = absurd (omega arith)
digits-starts (suc fuel) n h = elim (Bool-cases (ltb n 10)) [
  | inl e ↦ (b'0' + n % 10, [], rw e, ground arith)
  | inr e ↦
      let (c, cs, e', d) = digits-starts fuel (n / 10) (ground arith) in
      (c, cs ++ (b'0' + n % 10) ∷ [], rw (e, e'), d)
]

scan_digit : (c : ℕ) (cs : Text) → is_digit c ≡ true → scan_int (c ∷ cs) ≡ some (value 0 (c ∷ cs))
unfolding scan_int is_digit is_space
scan_digit c cs h = ground arith

-- A printed number is read back, when no digit follows it.
pub scan_int-put_int :
    (n c : ℕ) (rest : Text) → is_digit c ≡ false → scan_int (put_int n ++ c ∷ rest) ≡ some n
unfolding put_int value
scan_int-put_int n c rest h =
    let (d, ds, e, ok) = digits-starts (suc n) n (omega arith) in
    let r = value-digits (suc n) n (c ∷ rest) (omega arith) in
    let r' = rw e at r in rw e (scan_digit d (ds ++ c ∷ rest) ok ∙ ap some (r' ∙ rw h))

pub get_or_after :
    (a b : Text) (c i : ℕ) → get_or (a ++ c ∷ b) (suc (length a + i)) 0 ≡ get_or b i 0
get_or_after [] b c i = let e : 0 + i ≡ i = omega arith in rw e
get_or_after (x ∷ a) b c i =
    let e : suc (length a) + i ≡ suc (length a + i) = omega arith in rw e (get_or_after a b c i)

pub get_or-front : (a b : Text) (i : ℕ) → i < length a → get_or (a ++ b) i 0 ≡ get_or a i 0
get_or-front [] b i h = absurd (omega arith)
get_or-front (x ∷ a) b zero h = refl
get_or-front (x ∷ a) b (suc i) h = get_or-front a b i (omega arith)

pub get_or_at : (a b : Text) (c : ℕ) → get_or (a ++ c ∷ b) (length a) 0 ≡ c
get_or_at [] b c = refl
get_or_at (x ∷ a) b c = get_or_at a b c

pub get_or-lacks :
    (bad : ℕ → Bool) (b : Text) (i : ℕ)
    → lacks bad b ≡ true
    → i < length b
    → bad (get_or b i 0) ≡ false
unfolding lacks
get_or-lacks bad [] i h lt = absurd (omega arith)
get_or-lacks bad (x ∷ b) zero h lt = ground arith
get_or-lacks bad (x ∷ b) (suc i) h lt = get_or-lacks bad b i (ground arith) (omega arith)

found_at :
    (c : ℕ) (text : Text) (p : ℕ) → (get_or text p 0 == c) ≡ true → find_back c text p ≡ some p
unfolding find_back
found_at c text zero h = rw h
found_at c text (suc p) h = rw h

-- Read backwards, the first `c` met is the last of the text.
pub find_back-last :
    (c : ℕ) (a b : Text) (i : ℕ)
    → lacks (λ x. x == c) b ≡ true
    → i ≤ length b
    → find_back c (a ++ c ∷ b) (length a + i) ≡ some (length a)
unfolding find_back
find_back-last c a b zero h le =
    let e : length a + 0 ≡ length a = omega arith in
    rw e (found_at c (a ++ c ∷ b) (length a) (rw (get_or_at a b c) (ground arith)))
find_back-last c a b (suc i) h le =
    let e : length a + suc i ≡ suc (length a + i) = omega arith in
    let skip = get_or-lacks (λ x. x == c) b i h (omega arith) in
    rw (e, find_back, get_or_after a b c i, skip) (find_back-last c a b i h (omega arith))

pub drop-append : (a b : Text) (k : ℕ) → drop (length a + k) (a ++ b) ≡ drop k b
drop-append [] b k = let e : 0 + k ≡ k = omega arith in rw e
drop-append (x ∷ a) b k =
    let e : suc (length a) + k ≡ suc (length a + k) = omega arith in rw e (drop-append a b k)

pub lacks-weaken :
    (bad other : ℕ → Bool) (t : Text)
    → ((c : ℕ) → other c ≡ true → bad c ≡ true)
    → lacks bad t ≡ true
    → lacks other t ≡ true
unfolding lacks
lacks-weaken bad other [] w h = refl
lacks-weaken bad other (c ∷ t) w h = ground (arith, w c, lacks-weaken bad other t w)

digits-lacks :
    (bad : ℕ → Bool) (fuel n : ℕ)
    → ((d : ℕ) → d < 10 → bad (b'0' + d) ≡ false)
    → lacks bad (digits fuel n) ≡ true
unfolding digits lacks
digits-lacks bad zero n w = refl
digits-lacks bad (suc fuel) n w =
    let last : lacks bad ((b'0' + n % 10) ∷ []) ≡ true = rw (w (n % 10) (omega arith)) in
    elim (Bool-cases (ltb n 10)) [
      | inl e ↦ rw e last
      | inr e ↦
          rw e (lacks-append bad (digits fuel (n / 10)) _ (digits-lacks bad fuel (n / 10) w) last)
    ]

pub put_int-lacks :
    (bad : ℕ → Bool) (n : ℕ)
    → ((d : ℕ) → d < 10 → bad (b'0' + d) ≡ false)
    → lacks bad (put_int n) ≡ true
unfolding put_int
put_int-lacks bad n w = digits-lacks bad (suc n) n w
