-- ===== src/Hash/Table.antt =====
-- MP5/src/hash.c: the bucket of a code, the invariant of a table, and a write to one bucket.
use sp.Prelude.{
  false, ℕ, ◌≤◌, ◌<◌, ◌≡◌, ◌≢◌, List, [], Option, some, ℤ, pos, negsuc, ite, arith, ℕ_discrete,
  ◌==◌, length, get_or, set, length-set, get_or-set, get_elem?-get_or,
}
use sp.Hash.{Chain, Hash, slot, locate, write_chain, find}
use sp.Hash.Nodes.{count}

-- The bucket of a code, negative ones included, is inside the array.
pub slot-lt : (code : ℤ) (n : ℕ) → 0 < n → slot code n < n
unfolding slot
slot-lt (pos a) n h = omega arith
slot-lt (negsuc a) n h = ground arith

module _ {ℓ} {V : Type ℓ} where
  abbrev pub chain_of : List (Chain V) → ℤ → Chain V
  chain_of bs k = get_or bs (slot k (length bs)) []

  -- Each code stands at most once, and only in its own bucket.
  abbrev pub IsPlaced : List (Chain V) → Type 0
  IsPlaced bs =
      (q : ℤ) (i : ℕ)
      → (count q (get_or bs i []) ≤ 1) × (slot q (length bs) ≢ i → count q (get_or bs i []) ≡ 0)

  -- What the table means: the content stored under each code.
  unfoldable pub view : List (Chain V) → ℤ → Option V
  view bs q = find q (chain_of bs q)

  -- The table `h` is initialised, has the buckets `bs`, and they are well formed.
  pub record IsReady (h : Hash V) (bs : List (Chain V)) : Type ℓ where
    pub array : h.node ≡ some bs
    pub width : h.n ≡ length bs
    pub positive : 0 < h.n
    pub placed : IsPlaced bs

  module _ {h : Hash V} {bs : List (Chain V)} (ready : IsReady h bs) (k : ℤ) where
    pub inside : slot k (length bs) < length bs
    inside = slot-lt k (length bs) (rw (← ready.width) ready.positive)

    pub locate_lem : locate h k ≡ some (slot k (length bs), chain_of bs k)
    unfolding locate
    locate_lem =
        let e : (h.n == 0) ≡ false = ground (arith, ready.positive) in
        rw (e, ready.array, ready.width, get_elem?-get_or bs (slot k (length bs)) [] inside)

  -- A new chain in a bucket keeps the table well formed.
  module _ {h : Hash V} {bs : List (Chain V)} (ready : IsReady h bs) (i : ℕ) (lt : i < length bs)
      (c : Chain V) where
    pub write_chain-IsReady :
        ((q : ℤ) → (count q c ≤ 1) × (slot q (length bs) ≢ i → count q c ≡ 0))
        → IsReady (write_chain h i c) (set bs i c)
    unfolding write_chain
    write_chain-IsReady fit = record {
      array = rw ready.array;
      width = rw length-set ready.width;
      positive = ready.positive;
      placed = λ q j.
          rw (length-set, get_or-set bs i j c [] lt) (ground (arith, fit q, ready.placed q j));
    }

    pub view-set :
        (q : ℤ)
        → view (set bs i c) q ≡ ite (ℕ_discrete i (slot q (length bs))) (find q c) (view bs q)
    unfolding view
    view-set q = rw (length-set, get_or-set bs i (slot q (length bs)) c [] lt) (ground arith)
