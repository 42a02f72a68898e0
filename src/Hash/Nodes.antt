-- ===== src/Hash/Nodes.antt =====
-- MP5/src/hash.c: what the walks along one chain do to the codes and contents in it.
use mathlib.Core.Option
use sp.Prelude.{
  ℕ, ◌+◌, ◌≡◌, refl, ◌≢◌, [], ◌∷◌, Option, none, some, ℤ, ℤ_discrete, ite, if_pos, if_neg, arith,
  Bool, true, false, ◌-◌, if◌then◌else◌,
}
use sp.Hash.{HashNode, Chain, append_new, find, unlink, del_chain}

module _ {ℓ} {V : Type ℓ} where
  unfoldable pub count : ℤ → Chain V → ℕ
  count q [] = 0
  count q (x ∷ xs) = ite (ℤ_discrete x.hash_code q) 1 0 + count q xs

  pub find_of_count : (q : ℤ) (c : Chain V) → count q c ≡ 0 → find q c ≡ none
  unfolding count find
  find_of_count q [] h = refl
  find_of_count q (x ∷ xs) h = ground (arith, find_of_count q xs)

  pub count_of_find : (q : ℤ) (c : Chain V) → find q c ≡ none → count q c ≡ 0
  unfolding count find
  count_of_find q [] h = refl
  count_of_find q (x ∷ xs) h = ground (arith, count_of_find q xs)

  -- What `put_into_hash` makes of a chain, as seen from any code `q`.
  abbrev pub Appended : V → ℤ → Chain V → Option (Chain V) → Type ℓ
  Appended v k c none = (x : V) × (find k c ≡ some x)
  Appended v k c (some d) =
      (find k c ≡ none)
      × ((q : ℤ) → find q d ≡ ite (ℤ_discrete k q) (some v) (find q c))
      × ((q : ℤ) → count q d ≡ ite (ℤ_discrete k q) 1 (count q c))

  Appended-cons :
      (v : V) (k : ℤ) (x : HashNode V) (xs : Chain V) (r : Option (Chain V))
      → x.hash_code ≢ k
      → Appended v k xs r
      → Appended v k (x ∷ xs) (Option.map (λ ys. x ∷ ys) r)
  unfolding find count
  Appended-cons v k x xs none ne (w, e) = (w, ground arith)
  Appended-cons v k x xs (some d) ne (a, f, g) =
      (ground arith, λ q. ground (arith, f q), λ q. ground (arith, g q))

  pub append_new-Appended : (v : V) (k : ℤ) (c : Chain V) → Appended v k c (append_new v k c)
  unfolding append_new find count
  append_new-Appended v k [] = (refl, λ q. ground arith, λ q. ground arith)
  append_new-Appended v k (x ∷ xs) = elim (ℤ_discrete x.hash_code k) [
    | yes e ↦ rw (if_pos _ e) (x.contain, ground arith)
    | no ne ↦ rw (if_neg _ ne) (Appended-cons v k x xs _ ne (append_new-Appended v k xs))
  ]

  abbrev pub Unlinked : ℤ → Chain V → Option (V × Chain V) → Type ℓ
  Unlinked k c none = find k c ≡ none
  Unlinked k c (some (v, d)) =
      (find k c ≡ some v)
      × ((q : ℤ) → k ≢ q → find q d ≡ find q c)
      × ((q : ℤ) → count q d + ite (ℤ_discrete k q) 1 0 ≡ count q c)

  Unlinked-cons :
      (k : ℤ) (x : HashNode V) (xs : Chain V) (r : Option (V × Chain V))
      → x.hash_code ≢ k
      → Unlinked k xs r
      → Unlinked k (x ∷ xs) (Option.map (λ (v, ys). (v, x ∷ ys)) r)
  unfolding find count
  Unlinked-cons k x xs none ne e = ground arith
  Unlinked-cons k x xs (some (v, d)) ne (a, f, g) =
      (ground arith, λ q n. ground (arith, f q n), λ q. ground (arith, g q))

  pub unlink-Unlinked : (k : ℤ) (c : Chain V) → Unlinked k c (unlink k c)
  unfolding unlink find count
  unlink-Unlinked k [] = refl
  unlink-Unlinked k (x ∷ xs) = elim (ℤ_discrete x.hash_code k) [
    | yes e ↦ rw (if_pos _ e) (ground arith, λ q n. ground arith, λ q. ground arith)
    | no ne ↦ rw (if_neg _ ne) (Unlinked-cons k x xs _ ne (unlink-Unlinked k xs))
  ]

  -- Whether the chain begins with the code, so that `del_from_hash` drops all of it.
  unfoldable pub is_head : ℤ → Chain V → Bool
  is_head k [] = false
  is_head k (x ∷ xs) = ite (ℤ_discrete x.hash_code k) true false

  -- The walk of `del_from_hash`: exact for a later node, and the whole chain for the first one.
  abbrev pub Deleted : ℤ → Chain V → Option (V × Chain V) → Type ℓ
  Deleted k c none = find k c ≡ none
  Deleted k c (some (v, d)) =
      (find k c ≡ some v)
      × ((q : ℤ) → k ≢ q → find q d ≡ (if is_head k c then none else find q c))
      × ((q : ℤ) → count q d ≡ (if is_head k c then 0 else count q c - ite (ℤ_discrete k q) 1 0))

  Deleted-later :
      (k : ℤ) (x : HashNode V) (xs : Chain V) (r : Option (V × Chain V))
      → x.hash_code ≢ k
      → Unlinked k xs r
      → Deleted k (x ∷ xs) (Option.map (λ (v, ys). (v, x ∷ ys)) r)
  unfolding find count is_head
  Deleted-later k x xs none ne e = ground arith
  Deleted-later k x xs (some (v, d)) ne (a, f, g) =
      (ground arith, λ q n. ground (arith, f q n), λ q. ground (arith, g q))

  pub del_chain-Deleted : (k : ℤ) (c : Chain V) → Deleted k c (del_chain k c)
  unfolding del_chain find count is_head
  del_chain-Deleted k [] = refl
  del_chain-Deleted k (x ∷ xs) = elim (ℤ_discrete x.hash_code k) [
    | yes e ↦ rw (if_pos _ e) (ground arith, λ q n. ground arith, λ q. ground arith)
    | no ne ↦ rw (if_neg _ ne) (Deleted-later k x xs _ ne (unlink-Unlinked k xs))
  ]
