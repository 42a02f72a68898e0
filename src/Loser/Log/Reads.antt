-- ===== src/Loser/Log/Reads.antt =====
-- MP1/main.c: the steps of `logloser` on a record that `commit` wrote.
use sp.Prelude.{
  ℕ, zero, suc, ◌+◌, ◌/◌, ◌%◌, ◌≤◌, ◌<◌, ◌≡◌, refl, ap, ◌∙◌, inl, inr, [], ◌∷◌, ◌++◌, some, Bool,
  true, false, ◌&&◌, ◌||◌, ◌==◌, ltb, if◌then◌else◌, length, get_or, arith, append_assoc,
  Bool-cases,
}
use sp.Loser.Text.{Text, codes, is_space, is_digit, digits, put_int}
use sp.Loser.Text.Laws.{lacks, get_or_after, get_or-front, get_or_at, get_or-lacks, digits-starts}
use sp.Loser.Record.Clean.{is_mark}
use sp.Loser.Log.{skip_space, word, number, scan_number, read_number, scan_mark, print_rest}

-- No zero byte, no empty line behind a character `pre`, and a newline at the end.
unfoldable pub smooth : ℕ → Text → Bool
smooth pre [] = pre == b'\n'
smooth pre (c ∷ cs) = if c == 0 || (pre == b'\n' && c == b'\n') then false else smooth c cs

pub print_rest-end : (pre : ℕ) (t : Text) → smooth pre t ≡ true → print_rest pre t ≡ (t, [])
unfolding smooth print_rest
print_rest-end pre [] h = refl
print_rest-end pre (c ∷ cs) h = elim (Bool-cases (c == 0 || (pre == b'\n' && c == b'\n'))) [
  | inl e ↦ let h' = rw e at h in absurd (cc)
  | inr e ↦ let h' = rw e at h in rw (e, print_rest-end c cs h')
]

pub print_rest-stop :
    (pre : ℕ) (t x : Text) → smooth pre t ≡ true → print_rest pre (t ++ b'\n' ∷ x) ≡ (t, x)
unfolding smooth print_rest
print_rest-stop pre [] x h = rw h
print_rest-stop pre (c ∷ cs) x h = elim (Bool-cases (c == 0 || (pre == b'\n' && c == b'\n'))) [
  | inl e ↦ let h' = rw e at h in absurd (cc)
  | inr e ↦ let h' = rw e at h in rw (e, print_rest-stop c cs x h')
]

number-digits :
    (fuel n : ℕ) (rest : Text) → n < fuel → number 0 (digits fuel n ++ rest) ≡ number n rest
unfolding number digits is_digit
number-digits zero n rest h = absurd (omega arith)
number-digits (suc fuel) n rest h = elim (Bool-cases (ltb n 10)) [
  | inl e ↦ rw e (ground arith)
  | inr e ↦
      rw (e, append_assoc)
        (number-digits fuel (n / 10) ((b'0' + n % 10) ∷ rest) (ground arith) ∙ ground arith)
]

scan_digits :
    (d : ℕ) (ds : Text)
    → is_digit d ≡ true
    → scan_number (skip_space (d ∷ ds)) ≡ some (number 0 (d ∷ ds))
unfolding scan_number skip_space is_digit is_space
scan_digits d ds h = ground arith

read_digits :
    (n : ℕ) (rest : Text)
    → scan_number (skip_space (b' ' ∷ (put_int n ++ b'\n' ∷ rest))) ≡ some (n, b'\n' ∷ rest)
unfolding put_int skip_space number is_space is_digit
read_digits n rest =
    let (d, ds, e, ok) = digits-starts (suc n) n (omega arith) in
    let r = number-digits (suc n) n (b'\n' ∷ rest) (omega arith) in
    let r' = rw e at r in
    let one = scan_digits d (ds ++ b'\n' ∷ rest) ok in
    rw e (spaced (d ∷ (ds ++ b'\n' ∷ rest)) ∙ one ∙ ap some (r' ∙ newline n rest))
  where
    spaced : (t : Text) → scan_number (skip_space (b' ' ∷ t)) ≡ scan_number (skip_space t)
    spaced t = refl

    newline : (n : ℕ) (rest : Text) → number n (b'\n' ∷ rest) ≡ (n, b'\n' ∷ rest)
    newline n rest = refl

-- The word `commit` and the number of a commit are read.
pub read_number-put_int :
    (n : ℕ) (rest : Text)
    → read_number (codes " commit " ++ (put_int n ++ b'\n' ∷ rest)) ≡ some (n, b'\n' ∷ rest)
unfolding read_number word skip_space is_space
read_number-put_int n rest = read_digits n rest

found_mark :
    (text : Text) (p previouslen : ℕ)
    → (get_or text p 0 == b'#') ≡ true
    → scan_mark text p previouslen ≡ (previouslen + 1, (p + 1, true))
unfolding scan_mark
found_mark text zero previouslen h = rw h
found_mark text (suc p) previouslen h = let e : p + 2 ≡ suc p + 1 = omega arith in rw (h, e)

-- The search finds the last `#` in front of where it starts.
pub scan_mark-last :
    (a b1 b2 : Text) (i previouslen : ℕ)
    → lacks is_mark b1 ≡ true
    → i ≤ length b1
    → scan_mark (a ++ b'#' ∷ (b1 ++ b2)) (length a + i) previouslen
      ≡ (previouslen + suc i, (length a + 1, true))
unfolding scan_mark is_mark
scan_mark-last a b1 b2 zero previouslen h le =
    let e : length a + 0 ≡ length a = omega arith in
    rw e (
      found_mark (a ++ b'#' ∷ (b1 ++ b2)) (length a) previouslen
        (rw (get_or_at a (b1 ++ b2) b'#') (ground arith)))
scan_mark-last a b1 b2 (suc i) previouslen h le =
    let e : length a + suc i ≡ suc (length a + i) = omega arith in
    let skip : (get_or b1 i 0 == b'#') ≡ false = get_or-lacks is_mark b1 i h (omega arith) in
    let f : previouslen + 1 + suc i ≡ previouslen + suc (suc i) = omega arith in
    rw (e, scan_mark, get_or_after a (b1 ++ b2) b'#' i, get_or-front b1 b2 i (omega arith), skip)
      (scan_mark-last a b1 b2 i (previouslen + 1) h (omega arith) ∙ rw f)
