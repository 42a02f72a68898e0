-- ===== src/Loser/Record/Clean.antt =====
-- MP1/main.c: names, digests and reports that the record can hold.
use sp.Prelude.{
  ℕ, zero, suc, ◌≤◌, ◌<◌, ◌≡◌, refl, ap, ◌∙◌, List, [], ◌∷◌, ◌++◌, none, some, Bool, true, false,
  ◌||◌, ◌==◌, ltb, length, arith,
}
use sp.Loser.Text.{Text, is_space, flush, words}
use sp.Loser.Text.Laws.{lacks, lacks-append, lacks-weaken, words-append}
use sp.Loser.Classify.{Line, Report}
use sp.Loser.Record.{put_names, put_lines, put_report, read_lines}

-- The bytes that a name must not have for the record to be read back.
unfoldable pub is_special : ℕ → Bool
unfolding is_space
is_special c = is_space c || (c == b')' || c == b'#')

unfoldable pub is_mark : ℕ → Bool
is_mark c = c == b'#'

unfoldable pub is_close : ℕ → Bool
is_close c = c == b')'

abbrev pub IsName : Text → Type 0
IsName n = (lacks is_special n ≡ true) × (0 < length n) × (length n < 256)

abbrev pub IsDigest : Text → Type 0
IsDigest m = (lacks is_special m ≡ true) × (0 < length m) × (length m < 34)

abbrev pub AreLines : List Line → Type 0
AreLines [] = Unit {0}
AreLines (l ∷ ls) = IsName l.name × IsDigest l.md5 × AreLines ls

abbrev pub AreMarkless : List Text → Type 0
AreMarkless [] = Unit {0}
AreMarkless (n ∷ ns) = (lacks is_mark n ≡ true) × AreMarkless ns

abbrev pub IsMarkless : Report → Type 0
IsMarkless r = AreMarkless r.new_file × AreMarkless r.modified × AreMarkless r.copied

special-space : (c : ℕ) → is_space c ≡ true → is_special c ≡ true
unfolding is_special
special-space c h = rw h

pub special-close : (c : ℕ) → is_close c ≡ true → is_special c ≡ true
unfolding is_special is_close
special-close c h = ground arith

pub special-mark : (c : ℕ) → is_mark c ≡ true → is_special c ≡ true
unfolding is_special is_mark
special-mark c h = ground arith

unfoldable pub flat : List Line → List Text
flat [] = []
flat (l ∷ ls) = l.name ∷ l.md5 ∷ flat ls

words_of :
    (n rest : Text) (s : ℕ)
    → lacks is_special n ≡ true
    → 0 < length n
    → is_space s ≡ true
    → words [] (n ++ s ∷ rest) ≡ n ∷ words [] rest
words_of [] rest s h lt hs = absurd (omega arith)
words_of (c ∷ v) rest s h lt hs =
    words-append c v rest s (lacks-weaken is_special is_space (c ∷ v) special-space h) hs

pub words-put_lines : (ls : List Line) → AreLines ls → words [] (put_lines ls) ≡ flat ls
unfolding put_lines words flush flat is_space
words-put_lines [] h = refl
words-put_lines (l ∷ ls) ((a, a', _), (b, b', _), h) =
    words_of l.name (l.md5 ++ b'\n' ∷ put_lines ls) b' ' a a' refl
    ∙ ap (λ ws. l.name ∷ ws)
        (words_of l.md5 (put_lines ls) b'\n' b b' refl
          ∙ ap (λ ws. l.md5 ∷ ws) (words-put_lines ls h))

pub read_lines-flat :
    (room : ℕ) (ls : List Line)
    → AreLines ls
    → length ls ≤ room
    → read_lines room (flat ls) ≡ some ls
unfolding read_lines flat
read_lines-flat room [] h le = refl
read_lines-flat zero (l ∷ ls) h le = absurd (omega arith)
read_lines-flat (suc room) (l ∷ ls) ((_, _, a), (_, _, b), h) le =
    let a' : ltb (length l.name) 256 ≡ true = ground arith in
    let b' : ltb (length l.md5) 34 ≡ true = ground arith in
    rw (a', b', read_lines-flat room ls h (omega arith))

pub read_lines-overflow :
    (room : ℕ) (ls : List Line) → AreLines ls → room < length ls → read_lines room (flat ls) ≡ none
unfolding read_lines flat
read_lines-overflow room [] h lt = absurd (omega arith)
read_lines-overflow zero (l ∷ ls) h lt = refl
read_lines-overflow (suc room) (l ∷ ls) ((_, _, a), (_, _, b), h) lt =
    let a' : ltb (length l.name) 256 ≡ true = ground arith in
    let b' : ltb (length l.md5) 34 ≡ true = ground arith in
    rw (a', b', read_lines-overflow room ls h (omega arith))

pub lacks-put_lines :
    (bad : ℕ → Bool) (ls : List Line)
    → ((c : ℕ) → bad c ≡ true → is_special c ≡ true)
    → bad b' ' ≡ false
    → bad b'\n' ≡ false
    → AreLines ls
    → lacks bad (put_lines ls) ≡ true
unfolding lacks put_lines
lacks-put_lines bad [] w s n h = refl
lacks-put_lines bad (l ∷ ls) w s n ((a, _, _), (b, _, _), h) =
    lacks-append bad l.name _ (lacks-weaken is_special bad l.name w a) (
      rw s (
        lacks-append bad l.md5 _ (lacks-weaken is_special bad l.md5 w b)
          (rw n (lacks-put_lines bad ls w s n h))))

lacks-put_names : (ns : List Text) → AreMarkless ns → lacks is_mark (put_names ns) ≡ true
unfolding lacks put_names is_mark
lacks-put_names [] h = refl
lacks-put_names (n ∷ ns) (a, h) = lacks-append is_mark n _ a (lacks-put_names ns h)

pub lacks-put_report : (r : Report) → IsMarkless r → lacks is_mark (put_report r) ≡ true
unfolding lacks put_report is_mark
lacks-put_report r (a, b, c) =
    lacks-append is_mark (put_names r.new_file) _ (lacks-put_names r.new_file a) (
      lacks-append is_mark (put_names r.modified) _ (lacks-put_names r.modified b)
        (lacks-put_names r.copied c))
