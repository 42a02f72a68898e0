-- ===== src/Mine/Config/RoundTrip.antt =====
-- MP3/server/boss.c: `load_config_file` reads back the mine and the pipes of up to nine miners.
use sp.Prelude.{
  ℕ, suc, ◌+◌, ◌-◌, ◌≤◌, ◌≡◌, refl, ap, ◌∙◌, inl, inr, List, [], ◌∷◌, ◌++◌, map, some, Bool, true,
  false, ◌||◌, ◌==◌, ltb, leb, length, length-append, replicate, arith, append-nil, append_assoc,
  Bool-cases, get_or, set,
}
use sp.Loser.Text.{Text, codes}
use sp.Loser.Text.Laws.{lacks}
use sp.Mine.Config.{
  PipePair, Scan, no_pipes, start_scan, mine_loop, set_input, set_output, next_miner, next_word,
  scan_byte, scan_loop, last_word, config_of, end_scan, read_miners, load_config_file,
}

-- A line of the file behind that of the mine: a word that is skipped, and the two pipes.
pub record MinerLine : Type 0 where
  pub tag : Text
  pub input : Text
  pub output : Text

unfoldable pub put_miners : List MinerLine → Text
put_miners [] = []
put_miners (m ∷ ms) = m.tag ++ b' ' ∷ (m.input ++ b' ' ∷ (m.output ++ b'\n' ∷ put_miners ms))

unfoldable pub put_config : Text → List MinerLine → Text
unfolding put_miners
put_config mine ms = codes "MINE: " ++ (mine ++ b'\n' ∷ put_miners ms)

unfoldable pub ends_word : ℕ → Bool
ends_word c = (c == b' ') || (c == b'\n')

abbrev pub AreMiners : List MinerLine → Type 0
AreMiners [] = Unit {0}
AreMiners (m ∷ ms) =
    (lacks ends_word m.tag ≡ true)
    × (lacks ends_word m.input ≡ true)
    × (lacks ends_word m.output ≡ true)
    × AreMiners ms

unfoldable pub pair_of : MinerLine → PipePair
pair_of m = record { input_pipe = some m.input; output_pipe = some m.output }

mine_loop-name :
    (w mine rest : Text)
    → lacks (λ c. c == b'\n') mine ≡ true
    → mine_loop w (mine ++ b'\n' ∷ rest) ≡ (w ++ mine, some rest)
unfolding mine_loop lacks
mine_loop-name w [] rest h = rw append-nil
mine_loop-name w (c ∷ mine) rest h = elim (Bool-cases (c == b'\n')) [
  | inl e ↦ let h' = rw e at h in absurd (cc)
  | inr e ↦
      let h' = rw e at h in
      rw e (
        mine_loop-name (w ++ c ∷ []) mine rest h'
        ∙ ap (λ x. (x, some rest)) (append_assoc w (c ∷ []) mine))
]

scan_next :
    (c : ℕ) (cs : Text) (s s' : Scan)
    → scan_byte c s ≡ some s'
    → scan_loop (c ∷ cs) s ≡ scan_loop cs s'
unfolding scan_loop
scan_next c cs s s' e = rw (scan_loop, e)

byte_skipped : (c : ℕ) (s : Scan) → ends_word c ≡ false → s.skip ≡ true → scan_byte c s ≡ some s
unfolding scan_byte ends_word
byte_skipped c s h e = ground arith

byte_kept :
    (c : ℕ) (s : Scan)
    → ends_word c ≡ false
    → s.skip ≡ false
    → scan_byte c s ≡ some (record s { word = s.word ++ c ∷ [] })
unfolding scan_byte ends_word
byte_kept c s h e = ground arith

space_met :
    (s : Scan) → s.skip ≡ true → scan_byte b' ' s ≡ some (record s { process = true; skip = false })
unfolding scan_byte
space_met s e = ground arith

scan-tag :
    (tag rest : Text) (s : Scan)
    → lacks ends_word tag ≡ true
    → s.skip ≡ true
    → scan_loop (tag ++ b' ' ∷ rest) s ≡ scan_loop rest (record s { process = true; skip = false })
unfolding lacks
scan-tag [] rest s h e = scan_next b' ' rest s _ (space_met s e)
scan-tag (c ∷ tag) rest s h e =
    scan_next c (tag ++ b' ' ∷ rest) s s (byte_skipped c s (ground arith) e)
    ∙ scan-tag tag rest s (ground arith) e

-- A word is gathered up to what ends it.
scan-word :
    (v rest : Text) (s : Scan)
    → lacks ends_word v ≡ true
    → s.skip ≡ false
    → scan_loop (v ++ rest) s ≡ scan_loop rest (record s { word = s.word ++ v })
unfolding lacks
scan-word [] rest s h e = simp append-nil
scan-word (c ∷ v) rest s h e =
    scan_next c (v ++ rest) s _ (byte_kept c s (ground arith) e)
    ∙ scan-word v rest (record s { word = s.word ++ c ∷ [] }) (ground arith) e
    ∙ ap (λ w. scan_loop rest (record s { word = w })) (append_assoc s.word (c ∷ []) v)

-- Within the line of the miner behind `pairs`, whose pair so far is `pair`.
unfoldable within : List PipePair → PipePair → ℕ → Text → Bool → Bool → Scan
within pairs pair left word process in_or_out = record {
  pipes = pairs ++ pair ∷ replicate left no_pipes;
  miner_num = length pairs;
  word = word;
  process = process;
  in_or_out = in_or_out;
  skip = false;
}

-- Between two lines: `pairs` are those of the miners that were read.
unfoldable ready : List PipePair → ℕ → Scan
ready pairs left = record {
  pipes = pairs ++ replicate left no_pipes;
  miner_num = length pairs;
  word = [];
  process = false;
  in_or_out = false;
  skip = true;
}

length-map {ℓ ℓ'} :
    {A : Type ℓ} {B : Type ℓ'} (f : A → B) (xs : List A) → length (map f xs) ≡ length xs
length-map f [] = refl
length-map f (x ∷ xs) = ap suc (length-map f xs)

module _ {A : Type 0} where
  set_at : (xs ys : List A) (y v : A) → set (xs ++ y ∷ ys) (length xs) v ≡ xs ++ v ∷ ys
  set_at [] ys y v = refl
  set_at (x ∷ xs) ys y v = ap (λ t. x ∷ t) (set_at xs ys y v)

  get_at : (xs ys : List A) (y d : A) → get_or (xs ++ y ∷ ys) (length xs) d ≡ y
  get_at [] ys y d = refl
  get_at (x ∷ xs) ys y d = get_at xs ys y d

  bound_at : (xs ys : List A) (y : A) → ltb (length xs) (length (xs ++ y ∷ ys)) ≡ true
  bound_at xs ys y = let e = length-append xs (y ∷ ys) in ground arith

module _ (pairs : List PipePair) (pair : PipePair) (left : ℕ) (w : Text) (p o : Bool) where
  byte_space :
      scan_byte b' ' (within pairs pair left w p o)
      ≡ some (within pairs (record pair { input_pipe = some w }) left [] false true)
  unfolding scan_byte within set_input next_word
  byte_space =
      let free = replicate left no_pipes in
      rw (bound_at pairs free pair, get_at pairs free pair no_pipes, set_at pairs free pair)

  byte_newline :
      scan_byte b'\n' (within pairs pair left w p o)
      ≡ some (ready (pairs ++ record pair { output_pipe = some w } ∷ []) left)
  unfolding scan_byte within ready set_output next_miner
  byte_newline =
      let free = replicate left no_pipes in
      let e = length-append pairs (record pair { output_pipe = some w } ∷ []) in
      rw (
        bound_at pairs free pair,
        get_at pairs free pair no_pipes,
        set_at pairs free pair,
        append_assoc,
        e,
      )

-- A line sets the next pair.
scan-line :
    (m : MinerLine) (rest : Text) (pairs : List PipePair) (left : ℕ)
    → lacks ends_word m.tag ≡ true
    → lacks ends_word m.input ≡ true
    → lacks ends_word m.output ≡ true
    → scan_loop
        (m.tag ++ b' ' ∷ (m.input ++ b' ' ∷ (m.output ++ b'\n' ∷ rest)))
        (ready pairs (suc left))
      ≡ scan_loop rest (ready (pairs ++ pair_of m ∷ []) left)
unfolding ready within pair_of
scan-line m rest pairs left ht hi ho =
    scan-tag m.tag _ (ready pairs (suc left)) ht refl
    ∙ scan-word m.input _ (within pairs no_pipes left [] true false) hi refl
    ∙ scan_next b' ' _ _ _ (byte_space pairs no_pipes left m.input true false)
    ∙ scan-word m.output (b'\n' ∷ rest)
        (within pairs (record no_pipes { input_pipe = some m.input }) left [] false true) ho refl
    ∙ scan_next b'\n' rest _ _ (
        byte_newline pairs (record no_pipes { input_pipe = some m.input }) left m.output false true)

scan-miners :
    (ms : List MinerLine) (pairs : List PipePair) (left : ℕ)
    → AreMiners ms
    → scan_loop (put_miners ms) (ready pairs (length ms + left))
      ≡ some (ready (pairs ++ map pair_of ms) left)
unfolding scan_loop put_miners ready
scan-miners [] pairs left h = let e : 0 + left ≡ left = omega arith in rw (append-nil, e)
scan-miners (m ∷ ms) pairs left (ht, hi, ho, h) =
    let e : suc (length ms) + left ≡ suc (length ms + left) = omega arith in
    ap (λ n. scan_loop (put_miners (m ∷ ms)) (ready pairs n)) e
    ∙ scan-line m (put_miners ms) pairs (length ms + left) ht hi ho
    ∙ scan-miners ms (pairs ++ pair_of m ∷ []) left h
    ∙ ap (λ ps. some (ready ps left)) (append_assoc pairs (pair_of m ∷ []) (map pair_of ms))

of_ready :
    (mine : Text) (ms : List MinerLine)
    → config_of mine (end_scan (some (ready (map pair_of ms) (9 - length ms))))
      ≡ some (record {
        mine_file = mine;
        pipes = map pair_of ms ++ replicate (9 - length ms) no_pipes;
        num_miners = length ms;
      })
unfolding config_of end_scan last_word ready
of_ready mine ms = rw (length-map pair_of ms)

-- A file of at most 4096 bytes names the mine, without a newline, and has a line for each of at
-- most nine miners, with words without spaces and newlines: `load_config_file` gives the name, the
-- two pipes of each miner in their order, and their number.
pub load_config_file-put_config :
    (mine : Text) (ms : List MinerLine)
    → lacks (λ c. c == b'\n') mine ≡ true
    → AreMiners ms
    → length ms ≤ 9
    → length (put_config mine ms) ≤ 4096
    → load_config_file (put_config mine ms)
      ≡ some (record {
        mine_file = mine;
        pipes = map pair_of ms ++ replicate (9 - length ms) no_pipes;
        num_miners = length ms;
      })
unfolding load_config_file put_config read_miners ready start_scan
load_config_file-put_config mine ms hm h nine short =
    let fits : leb (length (put_config mine ms)) 4096 ≡ true = ground arith in
    let any : ltb 0 (length (put_config mine ms)) ≡ true = ground arith in
    let nine_in_all : length ms + (9 - length ms) ≡ 9 = omega arith in
    let scanned = scan-miners ms [] (9 - length ms) h in
    let from_start = rw nine_in_all at scanned in
    rw (load_config_file, fits, any)
      (ap read_miners (mine_loop-name [] mine (put_miners ms) hm)
        ∙ ap (λ s. config_of mine (end_scan s)) from_start
        ∙ of_ready mine ms)
