-- ===== src/Hash/Iterator.antt =====
-- MP5/src/hash.c: an iterator that starts at `init_hash_iterator` visits every node once.
use sp.Prelude.{
  ℕ, zero, suc, ◌+◌, ◌≤◌, ◌<◌, ◌≡◌, refl, List, [], ◌∷◌, Option, none, some, true, false, arith,
  ◌==◌, ltb, if◌then◌else◌, length, drop, ◌>>=◌,
}
use sp.Hash.{
  Chain, Hash, HashIterator, contents, first_bucket, buckets, init_hash_iterator, next_bucket,
  add_at, add_hash_iterator,
}
use sp.Hash.Table.{IsReady}

drop-suc {ℓ} :
    {A : Type ℓ} (i : ℕ) (xs : List A) (y : A) (ys : List A)
    → drop i xs ≡ y ∷ ys
    → drop (suc i) xs ≡ ys
drop-suc zero xs y ys e = rw e
drop-suc (suc i) [] y ys e = cc
drop-suc (suc i) (x ∷ xs) y ys e = drop-suc i xs y ys e

length-drop {ℓ} :
    {A : Type ℓ} (i : ℕ) (xs : List A) → i ≤ length xs → i + length (drop i xs) ≡ length xs
length-drop zero xs h = omega arith
length-drop (suc i) [] h = omega arith
length-drop (suc i) (x ∷ xs) h = omega (arith, length-drop i xs)

drop_end {ℓ} : {A : Type ℓ} (i : ℕ) (xs : List A) → length xs ≤ i → drop i xs ≡ []
drop_end zero [] h = refl
drop_end zero (x ∷ xs) h = absurd (omega arith)
drop_end (suc i) [] h = refl
drop_end (suc i) (x ∷ xs) h = drop_end i xs (omega arith)

module _ {ℓ} {V : Type ℓ} where
  -- Where an iterator over the buckets `bs` can stand: at a node of bucket `i`, or at the end.
  abbrev Stands : List (Chain V) → ℕ → Chain V → Type 0
  Stands bs i [] = i ≡ length bs
  Stands bs i (x ∷ c) = i < length bs

  first_bucket_lem :
      (bs cs : List (Chain V)) (i : ℕ)
      → drop i bs ≡ cs
      → i + length cs ≡ length bs
      → Stands bs (first_bucket i cs).0 (first_bucket i cs).1
        × (contents cs ≡ contents ((first_bucket i cs).1 ∷ drop (suc (first_bucket i cs).0) bs))
  unfolding first_bucket contents
  first_bucket_lem bs [] i e l = (omega arith, rw (drop_end (suc i) bs (omega arith)))
  first_bucket_lem bs ([] ∷ cs) i e l =
      first_bucket_lem bs cs (suc i) (drop-suc i bs [] cs e) (omega arith)
  first_bucket_lem bs ((x ∷ c) ∷ cs) i e l = (omega arith, rw (drop-suc i bs (x ∷ c) cs e))

  -- A caller that reads `it->node->contain` and advances until `it->n` reaches the end.
  unfoldable pub visited : ℕ → HashIterator V → Option (List V)
  visited zero it = none
  visited (suc f) it = elim (it.n == it.hash.n) [
    | true ↦ some []
    | false ↦ elim it.node [
      | [] ↦ none
      | x ∷ _ ↦ do it' ← add_hash_iterator it; rest ← visited f it'; some (x.contain ∷ rest)
    ]
  ]

  module _ {h : Hash V} {bs : List (Chain V)} (ready : IsReady h bs) where
    abbrev at : ℕ → Chain V → HashIterator V
    at i c = record { hash = h; node = c; n = i }

    buckets_lem : buckets h ≡ bs
    unfolding buckets
    buckets_lem = rw ready.array

    kept_end : (i : ℕ) (c : Chain V) → Stands bs i c → (if ltb i h.n then c else []) ≡ c
    kept_end i [] s = ground arith
    kept_end i (x ∷ c) s = ground (arith, ready.width)

    next_bucket_lem :
        (i : ℕ) (c : Chain V)
        → i < length bs
        → (j : ℕ) × (d : Chain V) × (next_bucket (at i c) ≡ at j d)
          × Stands bs j d
          × (contents (drop (suc i) bs) ≡ contents (d ∷ drop (suc j) bs))
    unfolding next_bucket
    next_bucket_lem i c lt =
        let e : i + 1 ≡ suc i = omega arith in
        let (s, same) =
          first_bucket_lem bs (drop (suc i) bs) (suc i) refl
            (length-drop (suc i) bs (omega arith)) in
        (_, _, simp (buckets_lem, e, kept_end _ _ s), s, same)

    add_inside :
        (i : ℕ) (c : Chain V) → i < length bs → add_hash_iterator (at i c) ≡ add_at (at i c) c
    unfolding add_hash_iterator
    add_inside i c lt = let e : (i == h.n) ≡ false = ground (arith, ready.width) in rw e

    visited_from :
        (f i : ℕ) (c : Chain V)
        → Stands bs i c
        → length (contents (c ∷ drop (suc i) bs)) < f
        → visited f (at i c) ≡ some (contents (c ∷ drop (suc i) bs))
    unfolding visited contents add_at
    visited_from zero i c s lt = absurd (omega arith)
    visited_from (suc f) i [] s lt =
        let e : (i == h.n) ≡ true = ground (arith, ready.width) in
        rw (e, visited) (rw (drop_end (suc i) bs (omega arith)))
    visited_from (suc f) i (x ∷ y ∷ c) s lt =
        let e : (i == h.n) ≡ false = ground (arith, ready.width) in
        rw (e, visited)
          (simp (add_inside i (x ∷ y ∷ c) s, visited_from f i (y ∷ c) s (omega arith)))
    visited_from (suc f) i (x ∷ []) s lt =
        let e : (i == h.n) ≡ false = ground (arith, ready.width) in
        let (j, d, step, stand, same) = next_bucket_lem i (x ∷ []) s in
        rw (e, visited)
          (simp (
            add_inside i (x ∷ []) s,
            step,
            same,
            visited_from f j d stand (rw (← same) (omega arith)),
          ))

    -- An empty table leaves `it->node` as it was, and the caller does not read it.
    visited_start :
        (f j : ℕ) (c d : Chain V)
        → Stands bs j c
        → length (contents (c ∷ drop (suc j) bs)) < f
        → visited f (at j (if ltb j h.n then c else d)) ≡ some (contents (c ∷ drop (suc j) bs))
    unfolding contents visited
    visited_start zero j c d s lt = absurd (omega arith)
    visited_start (suc f) j [] d s lt =
        let e : (j == h.n) ≡ true = ground (arith, ready.width) in
        rw (e, visited) (rw (drop_end (suc j) bs (omega arith)))
    visited_start (suc f) j (x ∷ c) d s lt =
        let e : ltb j h.n ≡ true = ground (arith, ready.width) in
        rw e (visited_from (suc f) j (x ∷ c) s lt)

    -- From `init_hash_iterator` on, the caller reads the contents of every node, bucket by bucket,
    -- each once, and stops; one round more than there are nodes is enough.
    pub visited-contents :
        (it : HashIterator V) (f : ℕ)
        → length (contents bs) < f
        → visited f (init_hash_iterator it h) ≡ some (contents bs)
    unfolding init_hash_iterator
    visited-contents it f lt =
        let (s, same) = first_bucket_lem bs bs 0 refl (omega arith) in
        rw (buckets_lem, same) (visited_start f _ _ it.node s (rw (← same) lt))
