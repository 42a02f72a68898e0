-- ===== src/Box/Client/Blocks.antt =====
-- MP5/src/csiebox_client.c: the blocks that `sync_file_data` sends make the file.
use sp.Prelude.{
  ◌<◌, take, drop, length, ℕ, zero, suc, ◌+◌, ◌≡◌, refl, ap, ◌∙◌, [], ◌∷◌, ◌++◌, Option, none, some,
  arith, if◌then◌else◌,
}
use sp.Loser.Text.{Text}
use sp.Box.Sync.{Stat, Upload, is_dir}
use sp.Box.Client.{sync_file_data, send_loop}

-- The data of a file, in one piece.
unfoldable pub whole_data : Stat → Option Text → Upload
unfolding is_dir
whole_data stat none = record { datalen = 0; stream = [] }
whole_data stat (some content) =
    if is_dir stat.mode
    then record { datalen = 0; stream = [] }
    else record { datalen = length content; stream = content }

take-drop : (n : ℕ) (t : Text) → take n t ++ drop n t ≡ t
take-drop zero t = refl
take-drop (suc n) [] = refl
take-drop (suc n) (c ∷ t) = ap (λ l. c ∷ l) (take-drop n t)

length-drop_lt : (n : ℕ) (c : ℕ) (t : Text) → length (drop (suc n) (c ∷ t)) < length (c ∷ t)
length-drop_lt zero c t = omega arith
length-drop_lt (suc n) c [] = omega arith
length-drop_lt (suc n) c (x ∷ t) = omega (arith, length-drop_lt n x t)

-- The blocks make the file, and the loop ends.
pub send_loop-whole : (fuel : ℕ) (t : Text) → length t < fuel → send_loop fuel t ≡ t
unfolding send_loop
send_loop-whole zero t h = absurd (omega arith)
send_loop-whole (suc fuel) [] h = refl
send_loop-whole (suc fuel) (c ∷ t) h =
    ap (λ l. take 4096 (c ∷ t) ++ l)
      (send_loop-whole fuel (drop 4096 (c ∷ t)) (omega (arith, length-drop_lt 4095 c t)))
    ∙ take-drop 4096 (c ∷ t)

pub sync_file_data-whole_data :
    (stat : Stat) (content : Option Text) → sync_file_data stat content ≡ whole_data stat content
unfolding sync_file_data whole_data
sync_file_data-whole_data stat none = refl
sync_file_data-whole_data stat (some content) =
    rw (send_loop-whole (length content + 1) content (omega arith))
