-- ===== src/Md5/Examples.antt =====
-- MP1/mmd5.c: the digests of RFC 1321.
use sp.Prelude.{ℕ, ◌*◌, ◌<◌, ◌≡◌, refl, some, List, [], length, arith}
use sp.Loser.Text.{codes}
use sp.Md5.Digest.{add_chunks, message, digest-add_chunks, makemd5-IsDigest}
use sp.Loser.Record.Clean.{IsDigest}
use sp.Md5.{
  initial, makemd5, digest, digest_padded, is_padded, next_int, int_of, put_digest, put_bytes,
  hex_digit, little_endian, padded, memcpy, wrap, chunk_loop, pad_loop, words_at, word_at,
  add_chunk, rounds, one_round, mix, complement, word_of, left_rotate, shifts, constants,
}

of_abc : makemd5 (codes "abc") ≡ some (codes "900150983cd24fb0d6963f7d28e17f72")
unfolding makemd5 digest put_digest put_bytes hex_digit little_endian padded memcpy wrap chunk_loop
    digest_padded pad_loop is_padded next_int int_of words_at word_at add_chunk rounds one_round mix
    complement word_of left_rotate shifts constants
of_abc = refl

of_nothing : makemd5 [] ≡ some (codes "d41d8cd98f00b204e9800998ecf8427e")
unfolding makemd5 digest put_digest put_bytes hex_digit little_endian padded memcpy wrap chunk_loop
    digest_padded pad_loop is_padded next_int int_of words_at word_at add_chunk rounds one_round mix
    complement word_of left_rotate shifts constants
of_nothing = refl

makemd5-IsDigest_example :
    (t : List ℕ) × (makemd5 (codes "abc") ≡ some t) × (length t ≡ 32) × IsDigest t
makemd5-IsDigest_example = makemd5-IsDigest (codes "abc") (omega arith)

digest-add_chunks_example :
    (gap : ℕ) × (count : ℕ) × (length (message (codes "abc") gap) ≡ 64 * count)
    × (gap < 64)
    × (digest (codes "abc") ≡ some (add_chunks (message (codes "abc") gap) 0 count initial))
digest-add_chunks_example = digest-add_chunks (codes "abc") (omega arith)
