-- ===== src/Hash.antt =====
-- MP5/src/hash.c: a table of chains keyed by an `int` code. MP2/src/hash.c is the same code
-- without `get_from_hash_by_path`. A run that would divide by zero or read through NULL is `none`;
-- `memory` says whether the call of `malloc` inside an operation succeeds.
pub mod Nodes
pub mod Table
pub mod Operations
pub mod Lookup
pub mod Path
pub mod Iterator
mod Examples
use mathlib.Core.Option
use sp.Prelude.{
  ℕ, zero, suc, ◌+◌, ◌-◌, List, [], ◌∷◌, ◌++◌, Option, none, some, Bool, true, false, ◌||◌, ℤ, pos,
  negsuc, ℤ_discrete, rem, ite, ◌==◌, ltb, if◌then◌else◌, ◌>>=◌, length, replicate, get_elem?, set,
  drop,
}

pub record HashNode {ℓ} (V : Type ℓ) : Type ℓ where
  pub contain : V
  pub hash_code : ℤ

abbrev pub Chain {ℓ} : Type ℓ → Type ℓ
Chain V = List (HashNode V)

-- `node` is NULL before `init_hash` and after `clean_hash`.
pub record Hash {ℓ} (V : Type ℓ) : Type ℓ where
  pub node : Option (List (Chain V))
  pub n : ℕ

-- A pointer into a chain is the part of the chain from there on, NULL the empty part.
pub record HashIterator {ℓ} (V : Type ℓ) : Type ℓ where
  pub hash : Hash V
  pub node : Chain V
  pub n : ℕ

-- `pos = hash_code % n; if (pos < 0) pos = n + pos;`
unfoldable pub slot : ℤ → ℕ → ℕ
unfolding rem
slot code n = elim (rem code n) [ pos p ↦ p | negsuc q ↦ n - suc q ]

module _ {ℓ} {V : Type ℓ} where
  unfoldable pub init_hash : Hash V → ℤ → Bool → Bool × Hash V
  init_hash h (negsuc m) memory = (false, h)
  init_hash h (pos m) memory = if m == 0 then (false, h) else elim h.node [
    | some bs ↦ (false, h)
    | none ↦ if memory then (true, record { node = some (replicate m []); n = m }) else (false, h)
  ]

  -- The index and the chain that an operation on `code` works on.
  unfoldable pub locate : Hash V → ℤ → Option (ℕ × Chain V)
  locate h code =
      if h.n == 0
      then none
      else do bs ← h.node; chain ← get_elem? bs (slot code h.n); some (slot code h.n, chain)

  unfoldable pub write_chain : Hash V → ℕ → Chain V → Hash V
  write_chain h i chain = record h { node = Option.map (λ bs. set bs i chain) h.node }

  -- The walk to the end of the chain: `none` if a node has the code already.
  unfoldable pub append_new : V → ℤ → Chain V → Option (Chain V)
  append_new v code [] = some (record { contain = v; hash_code = code } ∷ [])
  append_new v code (x ∷ xs) =
      ite (ℤ_discrete x.hash_code code) none (Option.map (λ ys. x ∷ ys) (append_new v code xs))

  unfoldable pub put_into_hash : Hash V → V → ℤ → Bool → Option (Bool × Hash V)
  put_into_hash h v code memory = do
    (i, chain) ← locate h code
    elim (append_new v code chain) [
      | none ↦ some (false, h)
      | some longer ↦ if memory then some (true, write_chain h i longer) else some (false, h)
    ]

  unfoldable pub find : ℤ → Chain V → Option V
  find code [] = none
  find code (x ∷ xs) = ite (ℤ_discrete x.hash_code code) (some x.contain) (find code xs)

  -- The inner `none` is the return value 0 with `*contain` NULL.
  unfoldable pub get_from_hash : Hash V → ℤ → Option (Option V)
  get_from_hash h code = do (i, chain) ← locate h code; some (find code chain)

  -- The rest of the walk of `del_from_hash`, once `pre` is set.
  unfoldable pub unlink : ℤ → Chain V → Option (V × Chain V)
  unlink code [] = none
  unlink code (x ∷ xs) =
      ite (ℤ_discrete x.hash_code code) (some (x.contain, xs))
        (Option.map (λ (v, ys). (v, x ∷ ys)) (unlink code xs))

  -- The whole walk: at the first node `pre` is NULL, and the code sets the bucket to NULL.
  unfoldable pub del_chain : ℤ → Chain V → Option (V × Chain V)
  del_chain code [] = none
  del_chain code (x ∷ xs) =
      ite (ℤ_discrete x.hash_code code) (some (x.contain, []))
        (Option.map (λ (v, ys). (v, x ∷ ys)) (unlink code xs))

  unfoldable pub del_from_hash : Hash V → ℤ → Option (Option V × Hash V)
  del_from_hash h code = do
    (i, chain) ← locate h code
    elim (del_chain code chain) [
      | none ↦ some (none, h)
      | some (v, shorter) ↦ some (some v, write_chain h i shorter)
    ]

  -- `strcmp` against the path is the test `same`. `pre` is never set, so a hit clears its bucket.
  unfoldable pub any : (V → Bool) → Chain V → Bool
  any same [] = false
  any same (x ∷ xs) = same x.contain || any same xs

  unfoldable pub path_loop : (V → Bool) → ℕ → List (Chain V) → Option ℕ
  path_loop same i [] = none
  path_loop same i (c ∷ cs) = if any same c then some i else path_loop same (i + 1) cs

  -- The bucket at a hit is set to NULL, and its index returned; 0 without a hit.
  unfoldable pub path_found : Hash V → Option ℕ → ℕ × Hash V
  path_found h none = (0, h)
  path_found h (some i) = (i, write_chain h i [])

  unfoldable pub get_from_hash_by_path : Hash V → (V → Bool) → Option (ℕ × Hash V)
  unfolding path_found
  get_from_hash_by_path h same =
      if h.n == 0 then some (0, h) else do bs ← h.node; some (path_found h (path_loop same 0 bs))

  unfoldable pub clean_hash : Hash V → Hash V
  clean_hash h = record { node = none; n = 0 }

  -- The contents of the nodes, bucket by bucket.
  unfoldable pub contents : List (Chain V) → List V
  contents [] = []
  contents ([] ∷ cs) = contents cs
  contents ((x ∷ c) ∷ cs) = x.contain ∷ contents (c ∷ cs)

  -- With the contents that it frees, in order.
  unfoldable pub destroy_hash : Hash V → List V × Hash V
  unfolding contents
  destroy_hash h =
      (elim h.node [ none ↦ [] | some bs ↦ contents bs ], record { node = none; n = 0 })

  -- `for (; n < h->n; ++n) if (h->node[n]) break;`, with the bucket at which the loop stops.
  unfoldable pub first_bucket : ℕ → List (Chain V) → ℕ × Chain V
  first_bucket i [] = (i, [])
  first_bucket i ([] ∷ cs) = first_bucket (suc i) cs
  first_bucket i ((x ∷ c) ∷ cs) = (i, x ∷ c)

  unfoldable pub buckets : Hash V → List (Chain V)
  buckets h = elim h.node [ none ↦ [] | some bs ↦ bs ]

  -- On an empty table `it->node` keeps what it held.
  unfoldable pub init_hash_iterator : HashIterator V → Hash V → HashIterator V
  unfolding first_bucket buckets
  init_hash_iterator it h =
      let (i, c) = first_bucket 0 (buckets h) in
      record { hash = h; node = if ltb i h.n then c else it.node; n = i }

  -- The end of `add_hash_iterator`: the search for the next bucket.
  unfoldable pub next_bucket : HashIterator V → HashIterator V
  unfolding first_bucket buckets
  next_bucket it =
      let (i, c) = first_bucket (it.n + 1) (drop (it.n + 1) (buckets it.hash)) in
      record it { node = if ltb i it.hash.n then c else []; n = i }

  unfoldable pub add_at : HashIterator V → Chain V → Option (HashIterator V)
  unfolding next_bucket
  add_at it [] = none
  add_at it (x ∷ []) = some (next_bucket it)
  add_at it (x ∷ y ∷ c) = some (record it { node = y ∷ c })

  unfoldable pub add_hash_iterator : HashIterator V → Option (HashIterator V)
  unfolding add_at
  add_hash_iterator it = if it.n == it.hash.n then some it else add_at it it.node
