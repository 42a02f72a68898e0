-- ===== src/Loser/CommandLine/Numbers.antt =====
-- MP1/main.c: the number of `log` is the number that its digits write.
use sp.Prelude.{
  ℕ, zero, suc, ◌+◌, ◌-◌, ◌*◌, ◌/◌, ◌%◌, ◌≤◌, ◌<◌, inl, inr, ltb, Bool-cases, ◌≡◌, refl, ap, ◌∙◌,
  [], ◌∷◌, ◌++◌, length, length-append, arith,
}
use sp.Loser.Text.{Text, put_int, digits}
use sp.Loser.Text.Laws.{get_or-front, get_or_at}
use sp.Loser.CommandLine.{number_loop, read_num}

-- The loop reads only what it has not passed.
loop_front :
    (a b : Text) (i num tui : ℕ)
    → i ≤ length a
    → number_loop (a ++ b) i num tui ≡ number_loop a i num tui
unfolding number_loop
loop_front a b zero num tui h = refl
loop_front a b (suc i) num tui h =
    rw (get_or-front a b i (omega arith)) (loop_front a b i _ (tui * 10) (omega arith))

last_digit :
    (front : Text) (d num tui : ℕ)
    → number_loop (front ++ (b'0' + d) ∷ []) (length (front ++ (b'0' + d) ∷ [])) num tui
      ≡ number_loop front (length front) (num + d * tui) (tui * 10)
unfolding number_loop
last_digit front d num tui =
    let l : length (front ++ (b'0' + d) ∷ []) ≡ suc (length front) =
      length-append front ((b'0' + d) ∷ []) ∙ omega arith in
    let e : b'0' + d - b'0' ≡ d = omega arith in
    rw (l, number_loop, get_or_at front [] (b'0' + d), e)
      (loop_front front ((b'0' + d) ∷ []) (length front) _ (tui * 10) (omega arith))

weigh : (n num tui : ℕ) → num + n % 10 * tui + n / 10 * (tui * 10) ≡ num + n * tui
weigh n num tui =
    let e : n ≡ n / 10 * 10 + n % 10 = omega arith in
    let p = ap (λ t. t * tui) e in grind (arith, p)

one_digit :
    (n num tui : ℕ) → n % 10 ≡ n → number_loop [] 0 (num + n % 10 * tui) (tui * 10) ≡ num + n * tui
unfolding number_loop
one_digit n num tui q = rw q

loop_digits :
    (fuel n num tui : ℕ)
    → n < fuel
    → number_loop (digits fuel n) (length (digits fuel n)) num tui ≡ num + n * tui
unfolding digits
loop_digits zero n num tui h = absurd (omega arith)
loop_digits (suc fuel) n num tui h = elim (Bool-cases (ltb n 10)) [
  | inl e ↦ rw e (last_digit [] (n % 10) num tui ∙ one_digit n num tui (ground arith))
  | inr e ↦ rw e (
      last_digit (digits fuel (n / 10)) (n % 10) num tui
      ∙ loop_digits fuel (n / 10) (num + n % 10 * tui) (tui * 10) (ground arith)
      ∙ weigh n num tui)
]

-- The loop over the characters of a number, from its last digit on, gives the number.
read_num-put_int : (n : ℕ) → read_num (put_int n) ≡ n
unfolding read_num put_int
read_num-put_int n = loop_digits (suc n) n 0 1 (omega arith) ∙ omega arith
