-- ===== src/Hash/Lookup.antt =====
-- MP5/src/hash.c: `get_from_hash` finds exactly what stands anywhere in the table.
use sp.Prelude.{
  ℕ, ◌≤◌, ◌≡◌, ap, ◌⊎◌, ◌↔◌, inl, inr, List, [], ◌∷◌, Option, some, ℤ, ℤ_discrete, if_pos, if_neg,
  arith, length, get_or, ℕ_discrete,
}
use sp.Hash.{Chain, Hash, slot, find, get_from_hash}
use sp.Hash.Nodes.{count}
use sp.Hash.Table.{chain_of, IsReady, locate_lem}

module _ {V : Type 0} where
  -- A node of the chain has the code and the content.
  abbrev pub IsIn : ℤ → V → Chain V → Type 0
  IsIn k v [] = ⊥
  IsIn k v (x ∷ xs) = ((x.hash_code ≡ k) × (x.contain ≡ v)) ⊎ IsIn k v xs

  -- A node with the code and the content stands in some bucket.
  abbrev pub IsStored : List (Chain V) → ℤ → V → Type 0
  IsStored bs k v = (i : ℕ) × IsIn k v (get_or bs i [])

  find-IsIn : (k : ℤ) (v : V) (xs : Chain V) → find k xs ≡ some v → IsIn k v xs
  unfolding find
  find-IsIn k v [] h = cc
  find-IsIn k v (x ∷ xs) h = elim (ℤ_discrete x.hash_code k) [
    | yes e ↦ let h' = rw (if_pos _ e) at h in inl (e, cc)
    | no ne ↦ let h' = rw (if_neg _ ne) at h in inr (find-IsIn k v xs h')
  ]

  IsIn-count : (k : ℤ) (v : V) (xs : Chain V) → IsIn k v xs → 1 ≤ count k xs
  unfolding count
  IsIn-count k v [] h = absurd h
  IsIn-count k v (x ∷ xs) (inl (e, _)) = rw (if_pos _ e) (omega arith)
  IsIn-count k v (x ∷ xs) (inr h) = omega (arith, IsIn-count k v xs h)

  IsIn-find : (k : ℤ) (v : V) (xs : Chain V) → IsIn k v xs → count k xs ≤ 1 → find k xs ≡ some v
  unfolding find count
  IsIn-find k v [] h le = absurd h
  IsIn-find k v (x ∷ xs) (inl (e, c)) le = rw (if_pos _ e) (ap some c)
  IsIn-find k v (x ∷ xs) (inr h) le = elim (ℤ_discrete x.hash_code k) [
    | yes e ↦
        let le' = rw (if_pos _ e) at le in let one = IsIn-count k v xs h in absurd (omega arith)
    | no ne ↦
        let le' = rw (if_neg _ ne) at le in rw (if_neg _ ne) (IsIn-find k v xs h (omega arith))
  ]

  -- On a well-formed table `get_from_hash` does not fault, and it gives a content exactly if some
  -- node of the table has that content under the code, in whatever bucket it stands.
  pub get_from_hash-IsStored :
      {h : Hash V} {bs : List (Chain V)}
      → IsReady h bs
      → (k : ℤ)
      → (o : Option V) × (get_from_hash h k ≡ some o) × ((v : V) → (o ≡ some v) ↔ IsStored bs k v)
  unfolding get_from_hash
  get_from_hash-IsStored {h = h} {bs = bs} ready k = (
    find k (chain_of bs k),
    rw (locate_lem ready k),
    λ v. (λ e. (slot k (length bs), find-IsIn k v (chain_of bs k) e), back v),
  )
    where
      back : (v : V) → IsStored bs k v → find k (chain_of bs k) ≡ some v
      back v (i, at_i) = elim (ℕ_discrete (slot k (length bs)) i) [
        | yes e ↦
            let here : IsIn k v (chain_of bs k) = rw e at_i in
            IsIn-find k v (chain_of bs k) here (ready.placed k (slot k (length bs))).0
        | no ne ↦
            let one = IsIn-count k v (get_or bs i []) at_i in
            let none_there = (ready.placed k i).1 ne in absurd (omega arith)
      ]
