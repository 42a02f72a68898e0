-- ===== src/Box/Config/Loops.antt =====
-- MP5/src/csiebox_client.c and MP5/src/csiebox_server.c: the loop of `parse_arg` ends on every file.
use sp.Prelude.{
  ℕ, zero, suc, ◌+◌, ◌≤◌, ◌<◌, ◌≡◌, refl, ap, ◌⊎◌, inl, inr, [], ◌∷◌, ◌++◌, ◌==◌, leb, length,
  length-append, arith, Bool-cases,
}
use sp.Loser.Text.{Text}
use sp.Box.Config.{getdelim, Round, stopped, outside, config, read_value, next_config, read_loop}

getdelim-length :
    (d : ℕ) (t cs : Text)
    → length (getdelim d t cs).0 + length (getdelim d t cs).1 ≡ length t + length cs
unfolding getdelim
getdelim-length d t [] = omega arith
getdelim-length d t (c ∷ cs) =
    let e = length-append t (c ∷ []) in
    elim (Bool-cases (c == d)) [
      | inl p ↦ rw p (omega arith)
      | inr p ↦ rw p (omega (arith, getdelim-length d (t ++ c ∷ []) cs))
    ]

read_value-rest :
    (key : Text) (p : Text × Text) (k v rest : Text)
    → read_value key p ≡ config k v rest
    → rest ≡ p.1
unfolding read_value
read_value-rest key ([], r) k v rest h = cc
read_value-rest key (c ∷ line, r) k v rest h = cc

-- A round that goes on has read something.
next_config-shorter :
    (text k v rest : Text) → next_config text ≡ config k v rest → length rest < length text
unfolding next_config
next_config-shorter text k v rest h = elim (Bool-cases (leb (length (getdelim b'=' [] text).0) 1)) [
  | inl e ↦ let h' = rw e at h in cc
  | inr e ↦
      let h' = rw e at h in
      let r = read_value-rest _ _ k v rest h' in
      let l = getdelim-length b'=' [] text in
      let l' = getdelim-length b'\n' [] (getdelim b'=' [] text).1 in
      let le = ap length r in ground arith
]

module _ {S : Type 0} (set_config : Text → Text → S → S) where
  Round-cases :
      (r : Round)
      → (r ≡ stopped)
        ⊎ (r ≡ outside)
        ⊎ ((k : Text) × (v : Text) × (rest : Text) × (r ≡ config k v rest))
  Round-cases stopped = inl refl
  Round-cases outside = inr (inl refl)
  Round-cases (config k v rest) = inr (inr (k, v, rest, refl))

  -- With as many rounds as the file has bytes the loop has ended: more change nothing.
  read_loop-enough :
      (fuel more : ℕ) (text : Text) (s : S)
      → length text < fuel
      → fuel ≤ more
      → read_loop set_config more text s ≡ read_loop set_config fuel text s
  unfolding read_loop
  read_loop-enough zero more text s lt le = absurd (omega arith)
  read_loop-enough (suc fuel) zero text s lt le = absurd (omega arith)
  read_loop-enough (suc fuel) (suc more) text s lt le = elim (Round-cases (next_config text)) [
    | inl e ↦ rw (read_loop, e)
    | inr (inl e) ↦ rw (read_loop, e)
    | inr (inr (k, v, rest, e)) ↦
        let short = next_config-shorter text k v rest e in
        rw (read_loop, e)
          (read_loop-enough fuel more rest (set_config k v s) (omega arith) (omega arith))
  ]
