-- ===== src/Box/Transfer/Complete.antt =====
-- MP5/src/csiebox_server.c: the loop that receives a file gets all of it.
use sp.Prelude.{
  ℕ, zero, suc, ◌+◌, ◌-◌, ◌*◌, ◌/◌, ◌≤◌, ◌<◌, ◌≡◌, refl, ap, ◌∙◌, inl, inr, [], ◌∷◌, ◌++◌, some,
  true, false, ltb, leb, length, take, drop, arith, append-nil, append_assoc, Bool-cases, dec_lt,
  ◌⊎◌,
}
use sp.Loser.Text.{Text}
use sp.Box.Transfer.{recv_message, read_len, copy_loop}

length-drop : (n : ℕ) (t : Text) → length (drop n t) ≡ length t - n
length-drop zero t = omega arith
length-drop (suc n) [] = omega arith
length-drop (suc n) (x ∷ t) = length-drop n t ∙ omega arith

take-join : (a b : ℕ) (t : Text) → take a t ++ take b (drop a t) ≡ take (a + b) t
take-join zero b t = let e : 0 + b ≡ b = omega arith in rw e
take-join (suc a) b [] = let e : suc a + b ≡ suc (a + b) = omega arith in rw e (take_nil b)
  where
    take_nil : (b : ℕ) → take {A = ℕ} b [] ≡ []
    take_nil zero = refl
    take_nil (suc b) = refl
take-join (suc a) b (x ∷ t) =
    let e : suc a + b ≡ suc (a + b) = omega arith in rw e (ap (λ u. x ∷ u) (take-join a b t))

drop-join : (a b : ℕ) (t : Text) → drop b (drop a t) ≡ drop (a + b) t
drop-join zero b t = let e : 0 + b ≡ b = omega arith in rw e
drop-join (suc a) b [] = let e : suc a + b ≡ suc (a + b) = omega arith in rw e (drop_nil b)
  where
    drop_nil : (b : ℕ) → drop {A = ℕ} b [] ≡ []
    drop_nil zero = refl
    drop_nil (suc b) = refl
drop-join (suc a) b (x ∷ t) =
    let e : suc a + b ≡ suc (a + b) = omega arith in rw e (drop-join a b t)

received :
    (stream : Text) (n : ℕ)
    → 0 < n
    → recv_message stream n
      ≡ record { complete = leb n (length stream); bytes = take n stream; rest = drop n stream }
unfolding recv_message
received stream n h = ground arith

read_len-bounds :
    (datalen total : ℕ)
    → total < datalen
    → (0 < read_len datalen total)
      × (total + read_len datalen total ≤ datalen)
      × ((total + read_len datalen total ≡ datalen) ⊎ (read_len datalen total ≡ 4096))
unfolding read_len
read_len-bounds datalen total h = elim (Bool-cases (ltb (datalen - total) 4096)) [
  | inl e ↦ rw e (omega arith, omega arith, inl (omega arith))
  | inr e ↦ rw e (omega arith, ground arith, inr refl)
]

step_complete :
    (fuel datalen total n : ℕ) (t w : Text)
    → total < datalen
    → read_len datalen total ≡ n
    → 0 < n
    → n ≤ length t
    → copy_loop (suc fuel) datalen total t w
      ≡ copy_loop fuel datalen (total + n) (drop n t) (w ++ take n t)
unfolding copy_loop
step_complete fuel datalen total n t w lt e pos le =
    let l : ltb total datalen ≡ true = ground arith in
    let c : leb n (length t) ≡ true = ground arith in rw (l, e, received t n pos, c)

step_broken :
    (fuel datalen total n : ℕ) (t w : Text)
    → total < datalen
    → read_len datalen total ≡ n
    → 0 < n
    → length t < n
    → copy_loop (suc fuel) datalen total t w ≡ some (w, drop n t)
unfolding copy_loop
step_broken fuel datalen total n t w lt e pos le =
    let l : ltb total datalen ≡ true = ground arith in
    let c : leb n (length t) ≡ false = ground arith in rw (l, e, received t n pos, c)

step_end :
    (fuel datalen total : ℕ) (t w : Text)
    → datalen ≤ total
    → copy_loop (suc fuel) datalen total t w ≡ some (w, t)
unfolding copy_loop
step_end fuel datalen total t w le = let l : ltb total datalen ≡ false = ground arith in rw l

copy_from :
    (fuel datalen total : ℕ) (t w : Text)
    → total ≤ datalen
    → datalen - total ≤ length t
    → datalen + 4096 ≤ total + 4096 * fuel
    → copy_loop fuel datalen total t w
      ≡ some (w ++ take (datalen - total) t, drop (datalen - total) t)
copy_from zero datalen total t w le has enough = absurd (omega arith)
copy_from (suc fuel) datalen total t w le has enough = elim (dec_lt total datalen) [
  | yes lt ↦
      let n = read_len datalen total in
      let (pos, inside, which) = read_len-bounds datalen total lt in
      let l = length-drop n t in
      let more : datalen + 4096 ≤ (total + n) + 4096 * fuel = elim which [
        | inl e ↦ omega arith
        | inr e ↦ omega arith
      ] in
      let s : n + (datalen - (total + n)) ≡ datalen - total = omega arith in
      step_complete fuel datalen total n t w lt refl pos (omega arith)
      ∙ copy_from fuel datalen (total + n) (drop n t) (w ++ take n t) inside (omega arith) more
      ∙ rw (
        append_assoc,
        take-join n (datalen - (total + n)) t,
        drop-join n (datalen - (total + n)) t,
        s,
      )
  | no ge ↦
      let z : datalen - total ≡ 0 = omega arith in
      rw (z, append-nil) (step_end fuel datalen total t w (omega arith))
]

-- When the client sends all of the file, the loop ends, all of it is written in order, and
-- what the client sends behind it is left for the next request.
pub copy_loop-take :
    (datalen : ℕ) (stream : Text)
    → datalen ≤ length stream
    → copy_loop (datalen / 4096 + 2) datalen 0 stream []
      ≡ some (take datalen stream, drop datalen stream)
copy_loop-take datalen stream has =
    let z : datalen - 0 ≡ datalen = omega arith in
    copy_from (datalen / 4096 + 2) datalen 0 stream [] (omega arith) (omega arith) (omega arith)
    ∙ rw z
