-- ===== src/Hash/Path.antt =====
-- MP5/src/hash.c, `get_from_hash_by_path`: the bucket that it empties, and what it returns.
use sp.Prelude.{
  ℕ, zero, suc, ◌+◌, ◌<◌, ◌≡◌, refl, ◌⊎◌, inl, inr, List, [], ◌∷◌, Option, none, some, Bool, true,
  false, ℤ, ite, arith, ℕ_discrete, ◌==◌, length, get_or, set, Bool-cases,
}
use sp.Hash.{Chain, Hash, slot, write_chain, find, any, path_loop, get_from_hash_by_path}
use sp.Hash.Nodes.{count}
use sp.Hash.Table.{view, IsReady, write_chain-IsReady, view-set}

module _ {ℓ} {V : Type ℓ} (same : V → Bool) where
  -- The first bucket with a match, counted from `i`, or none.
  abbrev FirstHit : ℕ → List (Chain V) → Option ℕ → Type 0
  FirstHit i cs none = (j : ℕ) → any same (get_or cs j []) ≡ false
  FirstHit i cs (some k) =
      (j : ℕ) × (k ≡ i + j)
      × (j < length cs)
      × (any same (get_or cs j []) ≡ true)
      × ((m : ℕ) → m < j → any same (get_or cs m []) ≡ false)

  FirstHit-cons :
      (i : ℕ) (c : Chain V) (cs : List (Chain V)) (o : Option ℕ)
      → any same c ≡ false
      → FirstHit (i + 1) cs o
      → FirstHit i (c ∷ cs) o
  FirstHit-cons i c cs none e h = λ j. at j
    where
      at : (j : ℕ) → any same (get_or (c ∷ cs) j []) ≡ false
      at zero = e
      at (suc j) = h j
  FirstHit-cons i c cs (some k) e (j, p, lt, hit, before) =
      (suc j, omega arith, omega arith, hit, at)
    where
      at : (m : ℕ) → m < suc j → any same (get_or (c ∷ cs) m []) ≡ false
      at zero q = e
      at (suc m) q = before m (omega arith)

  path_loop-FirstHit : (i : ℕ) (cs : List (Chain V)) → FirstHit i cs (path_loop same i cs)
  unfolding path_loop any
  path_loop-FirstHit i [] = λ j. refl
  path_loop-FirstHit i (c ∷ cs) = elim (Bool-cases (any same c)) [
    | inl e ↦ rw e (0, omega arith, omega arith, e, λ m h. absurd (omega arith))
    | inr e ↦ rw e (FirstHit-cons i c cs _ e (path_loop-FirstHit (i + 1) cs))
  ]

  module _ {h : Hash V} {bs : List (Chain V)} (ready : IsReady h bs) where
    -- Either no content matches, 0 is returned and nothing changes; or the bucket of the first
    -- match is returned, and every code of that bucket is gone.
    abbrev pub Removes : ℕ × Hash V → Type ℓ
    Removes r = ((i : ℕ) → any same (get_or bs i []) ≡ false) × (r ≡ (0, h)) ⊎ record {
      hit : any same (get_or bs r.0 []) ≡ true;
      first : (i : ℕ) → i < r.0 → any same (get_or bs i []) ≡ false;
      buckets : List (Chain V);
      ready : IsReady r.1 buckets;
      reads : (q : ℤ) → view buckets q ≡ ite (ℕ_discrete r.0 (slot q (length bs))) none (view bs q);
    }

    path_by :
        (o : Option ℕ)
        → path_loop same 0 bs ≡ o
        → FirstHit 0 bs o
        → (r : ℕ × Hash V) × (get_from_hash_by_path h same ≡ some r) × Removes r
    unfolding get_from_hash_by_path find count
    path_by none e h' =
        let p : (h.n == 0) ≡ false = ground (arith, ready.positive) in
        ((0, h), simp (p, ready.array, e), inl (h', refl))
    path_by (some k) e (j, p, lt, hit, before) =
        let q : (h.n == 0) ≡ false = ground (arith, ready.positive) in
        let kj : k ≡ j = omega arith in
        (
          (k, write_chain h k []),
          simp (q, ready.array, e),
          inr (record {
            hit = rw kj hit;
            first = λ i l. before i (omega arith);
            buckets = set bs k [];
            ready = write_chain-IsReady ready k (omega arith) [] (λ q. (omega arith, λ _. refl));
            reads = λ q. view-set ready k (omega arith) [] q;
          }),
        )

    -- `get_from_hash_by_path` returns the index of the first bucket with a matching content and
    -- empties that bucket whole, or, if no content matches, returns 0 and changes nothing.
    pub get_from_hash_by_path-Removes :
        (r : ℕ × Hash V) × (get_from_hash_by_path h same ≡ some r) × Removes r
    get_from_hash_by_path-Removes = path_by _ refl (path_loop-FirstHit 0 bs)
