-- ===== src/Md5/Digest.antt =====
-- MP1/mmd5.c: the digest of a message that is not too long exists and has the form that its
-- users rely on.
use sp.Prelude.{
  ℕ, zero, suc, ◌+◌, ◌-◌, ◌*◌, ◌/◌, ◌%◌, ◌≤◌, ◌<◌, ◌≡◌, refl, sym, ap, ◌∙◌, List, [], ◌∷◌, ◌++◌,
  some, true, false, ltb, lt→ltb, pos, append_assoc, get_or-replicate, length, length-append,
  get_elem?-get_or, get_or, replicate, length-replicate, arith, ◌>>=◌,
}
use sp.Loser.Text.{is_space}
use sp.Loser.Text.Laws.{lacks, lacks-append}
use sp.Loser.Record.Clean.{IsDigest, is_special}
use sp.Md5.{
  Registers, word_at, words_at, add_chunk, chunk_loop, initial, digest, digest_padded, int_of,
  pad_loop, pad_fuel, padded, little_endian, wrap, hex_digit, put_bytes, put_digest, makemd5,
}
use sp.Md5.Padding.{pad_loop-least, padded-layout}

-- The word that the bytes from `p` on make.
unfoldable pub word_in : List ℕ → ℕ → ℕ
word_in msg p =
    get_or msg p 0
    + 256 * get_or msg (p + 1) 0
    + 65536 * get_or msg (p + 2) 0
    + 16777216 * get_or msg (p + 3) 0

unfoldable pub words_in : List ℕ → ℕ → ℕ → List ℕ
words_in msg p zero = []
words_in msg p (suc count) = word_in msg p ∷ words_in msg (p + 4) count

word_at-some : (msg : List ℕ) (p : ℕ) → p + 4 ≤ length msg → word_at msg p ≡ some (word_in msg p)
unfolding word_at word_in
word_at-some msg p h = rw (
  get_elem?-get_or msg p 0 (omega arith),
  ◌>>=◌,
  get_elem?-get_or msg (p + 1) 0 (omega arith),
  get_elem?-get_or msg (p + 2) 0 (omega arith),
  get_elem?-get_or msg (p + 3) 0 (omega arith),
)

words_at-some :
    (msg : List ℕ) (p count : ℕ)
    → p + 4 * count ≤ length msg
    → words_at msg p count ≡ some (words_in msg p count)
unfolding words_at words_in
words_at-some msg p zero h = refl
words_at-some msg p (suc count) h =
    rw (word_at-some msg p (omega arith), ◌>>=◌, words_at-some msg (p + 4) count (omega arith))

-- The chunks in order, 64 bytes each.
unfoldable pub add_chunks : List ℕ → ℕ → ℕ → Registers → Registers
add_chunks msg offset zero h = h
add_chunks msg offset (suc count) h =
    add_chunks msg (offset + 64) count (add_chunk (words_in msg offset 16) h)

chunk_loop-some :
    (fuel count : ℕ) (msg : List ℕ) (new_len offset : ℕ) (h : Registers)
    → new_len + 64 ≤ length msg
    → new_len ≤ offset + 64 * count
    → offset + 64 * count < new_len + 64
    → count < fuel
    → chunk_loop fuel msg new_len offset h ≡ some (add_chunks msg offset count h)
unfolding chunk_loop add_chunks
chunk_loop-some zero count msg new_len offset h a b c d = absurd (omega arith)
chunk_loop-some (suc fuel) zero msg new_len offset h a b c d = ground arith
chunk_loop-some (suc fuel) (suc count) msg new_len offset h a b c d =
    let lt : ltb offset new_len ≡ true = ground arith in
    rw (lt, chunk_loop, words_at-some msg offset 16 (omega arith), ◌>>=◌)
      (chunk_loop-some fuel count msg new_len (offset + 64) _ a (omega arith) (omega arith)
        (omega arith))

-- The message as RFC 1321 pads it, with its length in bits as eight bytes.
abbrev pub message : List ℕ → ℕ → List ℕ
message m gap = m ++ (128 ∷ (replicate gap 0 ++ (little_endian (8 * length m) ++ replicate 4 0)))

length-message : (m : List ℕ) (gap : ℕ) → length (message m gap) ≡ length m + 1 + gap + 8
unfolding little_endian
length-message m gap =
    let rest = little_endian (8 * length m) ++ replicate 4 0 in
    let a = length-append m (128 ∷ (replicate gap 0 ++ rest)) in
    let b = length-append (replicate gap 0) rest in
    let c : length (replicate {A = ℕ} gap 0) ≡ gap = length-replicate gap 0 in omega arith

-- Zeros behind a message are what reading behind its end gives anyway.
module _ (msg : List ℕ) (k : ℕ) where
  get_or_zeros : (p : ℕ) → get_or (msg ++ replicate k 0) p 0 ≡ get_or msg p 0
  get_or_zeros p = behind msg p
    where
      behind : (xs : List ℕ) (q : ℕ) → get_or (xs ++ replicate k 0) q 0 ≡ get_or xs q 0
      behind [] q = get_or-replicate k q 0
      behind (x ∷ xs) zero = refl
      behind (x ∷ xs) (suc q) = behind xs q

  words_in_zeros : (p count : ℕ) → words_in (msg ++ replicate k 0) p count ≡ words_in msg p count
  unfolding words_in word_in
  words_in_zeros p zero = refl
  words_in_zeros p (suc count) = rw (
    get_or_zeros p,
    get_or_zeros (p + 1),
    get_or_zeros (p + 2),
    get_or_zeros (p + 3),
    words_in_zeros (p + 4) count,
  )

  add_chunks_zeros :
      (offset count : ℕ) (h : Registers)
      → add_chunks (msg ++ replicate k 0) offset count h ≡ add_chunks msg offset count h
  unfolding add_chunks
  add_chunks_zeros offset zero h = refl
  add_chunks_zeros offset (suc count) h =
      ap (λ w. add_chunks (msg ++ replicate k 0) (offset + 64) count (add_chunk w h))
        (words_in_zeros offset 16)
      ∙ add_chunks_zeros (offset + 64) count (add_chunk (words_in msg offset 16) h)

-- Below 2 ^ 29 bytes the length in bits is not cut.
padded-message :
    (m : List ℕ) (gap : ℕ)
    → length m < 536870912
    → padded m (length m + suc gap) ≡ some (message m gap ++ replicate 56 0)
unfolding wrap
padded-message m gap short =
    let uncut : 8 * length m % 4294967296 ≡ 8 * length m = omega arith in
    padded-layout m gap
    ∙ ap (λ n. some (m ++ (128 ∷ (replicate gap 0 ++ (little_endian n ++ replicate 60 0))))) uncut
    ∙ ap some (sym (simp append_assoc))

digest_short :
    (m : List ℕ)
    → length m < 268435448
    → digest m ≡ (pad_loop pad_fuel (pos (length m * 8 + 1)) >>= digest_padded m)
unfolding digest int_of wrap
digest_short m short =
    let known : ltb (length m) 4294967296 ≡ true = lt→ltb (length m) 4294967296 (omega arith) in
    let uncut : (length m * 8 + 1) % 4294967296 ≡ length m * 8 + 1 = omega arith in
    let positive : ltb (length m * 8 + 1) 2147483648 ≡ true =
      lt→ltb (length m * 8 + 1) 2147483648 (omega arith) in
    rw (digest, known, uncut, positive)

-- The digest of a message of fewer than 2 ^ 28 - 8 bytes is defined: no `int` overflows, no byte is
-- read or written outside the padded message. It is what adding the chunks of the message that
-- RFC 1321 pads to the initial registers gives, with the fewest zeros that make whole chunks.
pub digest-add_chunks :
    (m : List ℕ)
    → length m < 268435448
    → (gap : ℕ) × (count : ℕ) × (length (message m gap) ≡ 64 * count)
      × (gap < 64)
      × (digest m ≡ some (add_chunks (message m gap) 0 count initial))
unfolding digest_padded
digest-add_chunks m short =
    let (bits, e, form, above, below, least) = pad_loop-least (length m * 8 + 1) (omega arith) in
    let gap = bits / 8 - (length m + 1) in
    let count = (bits / 8 + 8) / 64 in
    let n : bits / 8 ≡ length m + suc gap = omega arith in
    let p : padded m (bits / 8) ≡ some (message m gap ++ replicate 56 0) =
      ap (padded m) n ∙ padded-message m gap (omega arith) in
    let l = length-message m gap in
    let zeros : length (replicate {A = ℕ} 56 0) ≡ 56 = refl in
    let l' = length-append (message m gap) (replicate 56 0) in
    (
      gap,
      count,
      omega arith,
      omega arith,
      digest_short m short
          ∙ rw (e, ◌>>=◌, digest_padded, p)
              (chunk_loop-some (bits / 8 + 1) count (message m gap ++ replicate 56 0) (bits / 8) 0
                  initial (omega arith) (omega arith) (omega arith) (omega arith)
                ∙ ap some (add_chunks_zeros (message m gap) 56 0 count initial)),
    )

-- All bytes.
abbrev AreBytes : List ℕ → Type 0
AreBytes [] = Unit {0}
AreBytes (x ∷ xs) = (x < 256) × AreBytes xs

hex_digit-plain : (n : ℕ) → n < 16 → is_special (hex_digit n) ≡ false
unfolding hex_digit is_special is_space
hex_digit-plain n h = ground arith

put_bytes-lacks : (xs : List ℕ) → AreBytes xs → lacks is_special (put_bytes xs) ≡ true
unfolding put_bytes lacks
put_bytes-lacks [] h = refl
put_bytes-lacks (x ∷ xs) (b, h) =
    rw (hex_digit-plain (x / 16) (omega arith), hex_digit-plain (x % 16) (omega arith))
      (put_bytes-lacks xs h)

little_endian-AreBytes : (n : ℕ) → AreBytes (little_endian n)
unfolding little_endian
little_endian-AreBytes n = (omega arith, (omega arith, (omega arith, (omega arith, tt))))

length-put_digest : (h : Registers) → length (put_digest h) ≡ 32
unfolding put_digest little_endian put_bytes
length-put_digest h = refl

put_digest-lacks : (h : Registers) → lacks is_special (put_digest h) ≡ true
unfolding put_digest
put_digest-lacks h =
    let of = λ (n : ℕ). put_bytes-lacks (little_endian n) (little_endian-AreBytes n) in
    lacks-append is_special (put_bytes (little_endian h.a)) _ (of h.a) (
      lacks-append is_special (put_bytes (little_endian h.b)) _ (of h.b)
        (lacks-append is_special (put_bytes (little_endian h.c)) _ (of h.c) (of h.d)))

-- For a message of fewer than 2 ^ 28 - 8 bytes `makemd5` writes 32 characters, none of them white
-- space, `)` or `#`: a digest that the record of `loser` can hold.
pub makemd5-IsDigest :
    (m : List ℕ)
    → length m < 268435448
    → (t : List ℕ) × (makemd5 m ≡ some t) × (length t ≡ 32) × IsDigest t
unfolding makemd5
makemd5-IsDigest m short =
    let (gap, count, _, _, e) = digest-add_chunks m short in
    let h = add_chunks (message m gap) 0 count initial in
    let l = length-put_digest h in
    (put_digest h, rw (e, ◌>>=◌), l, (put_digest-lacks h, omega arith, omega arith))
