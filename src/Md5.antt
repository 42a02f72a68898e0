-- ===== src/Md5.antt =====
-- MP1/mmd5.c, the same code as `makemd5` in MP3/server/boss.h: the MD5 digest. `uint32_t` wraps at
-- 2 ^ 32; `int new_len` begins at what an int makes of a `uint32_t`, and `none` is its overflow, a
-- read or a write outside `msg`, or a message whose length no `uint32_t` holds.
pub mod Padding
pub mod Digest
mod Examples
use Prim.Native.Nat.{bit_and, bit_or, bit_xor}
use sp.Prelude.{
  ℕ, zero, suc, ◌+◌, ◌-◌, ◌*◌, ◌/◌, ◌%◌, ◌^◌, List, [], ◌∷◌, ◌++◌, Option, none, some, Bool, true,
  false, ltb, ◌==◌, if◌then◌else◌, ℤ, pos, negsuc, rem, get_or, get_elem?, set, length, replicate,
  ◌>>=◌,
}

-- The four registers.
pub record Registers : Type 0 where
  pub a : ℕ
  pub b : ℕ
  pub c : ℕ
  pub d : ℕ

unfoldable pub wrap : ℕ → ℕ
wrap n = n % 4294967296

unfoldable pub complement : ℕ → ℕ
complement n = 4294967295 - n

-- The per-round shift amounts.
unfoldable pub shifts : List ℕ
shifts =
    7 ∷ 12 ∷ 17 ∷ 22 ∷ 7 ∷ 12 ∷ 17 ∷ 22 ∷ 7 ∷ 12 ∷ 17 ∷ 22 ∷ 7 ∷ 12 ∷ 17 ∷ 22 ∷ 5 ∷ 9 ∷ 14 ∷ 20 ∷ 5
    ∷ 9 ∷ 14 ∷ 20 ∷ 5 ∷ 9 ∷ 14 ∷ 20 ∷ 5 ∷ 9 ∷ 14 ∷ 20 ∷ 4 ∷ 11 ∷ 16 ∷ 23 ∷ 4 ∷ 11 ∷ 16 ∷ 23 ∷ 4 ∷ 11
    ∷ 16 ∷ 23 ∷ 4 ∷ 11 ∷ 16 ∷ 23 ∷ 6 ∷ 10 ∷ 15 ∷ 21 ∷ 6 ∷ 10 ∷ 15 ∷ 21 ∷ 6 ∷ 10 ∷ 15 ∷ 21 ∷ 6 ∷ 10
    ∷ 15 ∷ 21 ∷ []

unfoldable pub constants : List ℕ
constants =
    0xd76aa478 ∷ 0xe8c7b756 ∷ 0x242070db ∷ 0xc1bdceee ∷ 0xf57c0faf ∷ 0x4787c62a ∷ 0xa8304613
    ∷ 0xfd469501 ∷ 0x698098d8 ∷ 0x8b44f7af ∷ 0xffff5bb1 ∷ 0x895cd7be ∷ 0x6b901122 ∷ 0xfd987193
    ∷ 0xa679438e ∷ 0x49b40821 ∷ 0xf61e2562 ∷ 0xc040b340 ∷ 0x265e5a51 ∷ 0xe9b6c7aa ∷ 0xd62f105d
    ∷ 0x02441453 ∷ 0xd8a1e681 ∷ 0xe7d3fbc8 ∷ 0x21e1cde6 ∷ 0xc33707d6 ∷ 0xf4d50d87 ∷ 0x455a14ed
    ∷ 0xa9e3e905 ∷ 0xfcefa3f8 ∷ 0x676f02d9 ∷ 0x8d2a4c8a ∷ 0xfffa3942 ∷ 0x8771f681 ∷ 0x6d9d6122
    ∷ 0xfde5380c ∷ 0xa4beea44 ∷ 0x4bdecfa9 ∷ 0xf6bb4b60 ∷ 0xbebfbc70 ∷ 0x289b7ec6 ∷ 0xeaa127fa
    ∷ 0xd4ef3085 ∷ 0x04881d05 ∷ 0xd9d4d039 ∷ 0xe6db99e5 ∷ 0x1fa27cf8 ∷ 0xc4ac5665 ∷ 0xf4292244
    ∷ 0x432aff97 ∷ 0xab9423a7 ∷ 0xfc93a039 ∷ 0x655b59c3 ∷ 0x8f0ccc92 ∷ 0xffeff47d ∷ 0x85845dd1
    ∷ 0x6fa87e4f ∷ 0xfe2ce6e0 ∷ 0xa3014314 ∷ 0x4e0811a1 ∷ 0xf7537e82 ∷ 0xbd3af235 ∷ 0x2ad7d2bb
    ∷ 0xeb86d391 ∷ []

unfoldable pub left_rotate : ℕ → ℕ → ℕ
unfolding wrap
left_rotate x c = bit_or (wrap (x * 2 ^ c)) (x / 2 ^ (32 - c))

-- `f` and `g` of round `i`.
unfoldable pub mix : ℕ → Registers → ℕ
unfolding complement
mix i s =
    if ltb i 16
    then bit_or (bit_and s.b s.c) (bit_and (complement s.b) s.d)
    else if ltb i 32
    then bit_or (bit_and s.d s.b) (bit_and (complement s.d) s.c)
    else if ltb i 48
    then bit_xor (bit_xor s.b s.c) s.d
    else bit_xor s.c (bit_or s.b (complement s.d))

unfoldable pub word_of : ℕ → ℕ
word_of i =
    if ltb i 16
    then i
    else if ltb i 32
    then (5 * i + 1) % 16
    else if ltb i 48
    then (3 * i + 5) % 16
    else (7 * i) % 16

unfoldable pub one_round : List ℕ → ℕ → Registers → Registers
unfolding mix word_of left_rotate shifts constants wrap
one_round w i s = record {
  a = s.d;
  b = wrap (
      s.b
      + left_rotate (wrap (s.a + mix i s + get_or constants i 0 + get_or w (word_of i) 0))
          (get_or shifts i 0));
  c = s.b;
  d = s.c;
}

-- The main loop from round `i` on.
unfoldable pub rounds : List ℕ → ℕ → ℕ → Registers → Registers
unfolding one_round
rounds w zero i s = s
rounds w (suc left) i s = rounds w left (i + 1) (one_round w i s)

-- Reads through the pointer `w`, four bytes a word, the lowest first; `none` is outside `msg`.
unfoldable pub word_at : List ℕ → ℕ → Option ℕ
word_at msg p = get_elem? msg p >>= λ x. get_elem? msg (p + 1) >>= λ y.
    get_elem? msg (p + 2) >>= λ z.
    get_elem? msg (p + 3) >>= λ t. some (x + 256 * y + 65536 * z + 16777216 * t)

unfoldable pub words_at : List ℕ → ℕ → ℕ → Option (List ℕ)
unfolding word_at
words_at msg p zero = some []
words_at msg p (suc count) =
    let rest = words_at msg (p + 4) count in word_at msg p >>= λ x. rest >>= λ xs. some (x ∷ xs)

unfoldable pub add_chunk : List ℕ → Registers → Registers
unfolding rounds wrap
add_chunk w h =
    let s = rounds w 64 0 h in
    record {
      a = wrap (h.a + s.a);
      b = wrap (h.b + s.b);
      c = wrap (h.c + s.c);
      d = wrap (h.d + s.d);
    }

-- The loop over the chunks; `none` is a read outside the message, or fuel that did not do.
unfoldable pub chunk_loop : ℕ → List ℕ → ℕ → ℕ → Registers → Option Registers
unfolding words_at add_chunk
chunk_loop zero msg new_len offset h = none
chunk_loop (suc fuel) msg new_len offset h = elim (ltb offset new_len) [
  | false ↦ some h
  | true ↦ words_at msg offset 16 >>= λ w. chunk_loop fuel msg new_len (offset + 64) (add_chunk w h)
]

-- An `int` with the bits of a `uint32_t`.
unfoldable pub int_of : ℕ → ℤ
int_of n = if ltb n 2147483648 then pos n else negsuc (4294967295 - n)

-- `new_len++`; `none` is an overflow.
unfoldable pub next_int : ℤ → Option ℤ
next_int (pos n) = if ltb n 2147483647 then some (pos (n + 1)) else none
next_int (negsuc zero) = some (pos 0)
next_int (negsuc (suc n)) = some (negsuc n)

-- `new_len % 512 == 448`
unfoldable pub is_padded : ℤ → Bool
unfolding rem
is_padded n = elim (rem n 512) [ pos r ↦ r == 448 | negsuc r ↦ false ]

-- The loop that looks for the length in bits.
unfoldable pub pad_loop : ℕ → ℤ → Option ℤ
unfolding is_padded next_int
pad_loop zero new_len = none
pad_loop (suc fuel) new_len = elim (is_padded new_len) [
  | true ↦ some new_len
  | false ↦ elim (next_int new_len) [ none ↦ none | some longer ↦ pad_loop fuel longer ]
]

-- From any `int` on: those below 0, and 512 more.
abbrev pub pad_fuel : ℕ
pad_fuel = 2147484160

-- `memcpy(msg + p, ...)`, for bytes that lie inside `msg`.
unfoldable pub memcpy : List ℕ → ℕ → List ℕ → List ℕ
memcpy msg p [] = msg
memcpy msg p (x ∷ xs) = memcpy (set msg p x) (p + 1) xs

unfoldable pub little_endian : ℕ → List ℕ
little_endian n = (n % 256) ∷ (n / 256 % 256) ∷ (n / 65536 % 256) ∷ (n / 16777216 % 256) ∷ []

-- The message with the bit 1, the zeros and its length in bits, in `new_len + 64` bytes; `none` is
-- a message that does not fit there.
unfoldable pub padded : List ℕ → ℕ → Option (List ℕ)
unfolding memcpy little_endian wrap
padded initial_msg new_len =
    let msg = memcpy (replicate (new_len + 64) 0) 0 initial_msg in
    if ltb (length initial_msg) (new_len + 64)
    then some (
        memcpy (set msg (length initial_msg) 128) new_len
          (little_endian (wrap (8 * length initial_msg))))
    else none

abbrev pub initial : Registers
initial = record { a = 0x67452301; b = 0xefcdab89; c = 0x98badcfe; d = 0x10325476 }

-- Behind the loop: `new_len` is its bits divided by 8.
unfoldable pub digest_padded : List ℕ → ℤ → Option Registers
unfolding chunk_loop padded
digest_padded initial_msg (negsuc bits) = none
digest_padded initial_msg (pos bits) =
    let new_len = bits / 8 in
    padded initial_msg new_len >>= λ msg. chunk_loop (new_len + 1) msg new_len 0 initial

unfoldable pub digest : List ℕ → Option Registers
unfolding pad_loop int_of wrap digest_padded
digest initial_msg = elim (ltb (length initial_msg) 4294967296) [
  | false ↦ none
  | true ↦
      pad_loop pad_fuel (int_of (wrap (length initial_msg * 8 + 1))) >>= digest_padded initial_msg
]

unfoldable pub hex_digit : ℕ → ℕ
hex_digit n = if ltb n 10 then b'0' + n else b'a' + (n - 10)

-- `%2.2x` for each byte
unfoldable pub put_bytes : List ℕ → List ℕ
unfolding hex_digit
put_bytes [] = []
put_bytes (x ∷ xs) = hex_digit (x / 16) ∷ hex_digit (x % 16) ∷ put_bytes xs

unfoldable pub put_digest : Registers → List ℕ
unfolding put_bytes little_endian
put_digest h =
    put_bytes (little_endian h.a)
    ++ (put_bytes (little_endian h.b)
        ++ (put_bytes (little_endian h.c) ++ put_bytes (little_endian h.d)))

unfoldable pub makemd5 : List ℕ → Option (List ℕ)
unfolding digest put_digest
makemd5 initial_msg = digest initial_msg >>= λ h. some (put_digest h)
