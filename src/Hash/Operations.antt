-- ===== src/Hash/Operations.antt =====
-- MP5/src/hash.c: each operation against the function from codes to contents that a table means.
use mathlib.Core.Option.{or_else}
use sp.Prelude.{
  ℕ, ◌<◌, ◌≡◌, refl, sym, ◌&&◌, List, [], ◌∷◌, Option, none, some, Bool, true, false, ℤ, pos,
  negsuc, ite, arith, ℤ_discrete, ◌==◌, if◌then◌else◌, length, set, inl, inr, Option-cases, ◌>>=◌,
  replicate, get_or-replicate, length-replicate,
}
use sp.Hash.{
  Chain, Hash, slot, write_chain, find, init_hash, put_into_hash, del_from_hash, append_new,
  del_chain, clean_hash,
}
use sp.Hash.Nodes.{
  count, find_of_count, Appended, append_new-Appended, Deleted, del_chain-Deleted, is_head,
}
use sp.Hash.Table.{chain_of, view, IsReady, locate_lem, inside, write_chain-IsReady, view-set}

module _ {ℓ} {V : Type ℓ} where
  -- The outcome of `put_into_hash`: nothing happens to a table that has the code, else it gains it.
  pub record Puts (bs : List (Chain V)) (k : ℤ) (v : V) (r : Bool × Hash V) : Type ℓ where
    pub buckets : List (Chain V)
    pub ready : IsReady r.1 buckets
    pub returns : r.0 ≡ elim (view bs k) [ none ↦ true | some _ ↦ false ]
    pub reads :
        (q : ℤ) → view buckets q ≡ ite (ℤ_discrete k q) (or_else (view bs k) (some v)) (view bs q)

  module _ {h : Hash V} {bs : List (Chain V)} (ready : IsReady h bs) where
    put_by :
        (k : ℤ) (v : V) (o : Option (Chain V))
        → append_new v k (chain_of bs k) ≡ o
        → Appended v k (chain_of bs k) o
        → (r : Bool × Hash V) × (put_into_hash h v k true ≡ some r) × Puts bs k v r
    unfolding put_into_hash view or_else
    put_by k v none e (x, found) = (
      (false, h),
      rw (locate_lem ready k, ◌>>=◌, e),
      record { buckets = bs; ready = ready; returns = rw found; reads = λ q. ground arith },
    )
    put_by k v (some c) e (absent, reads, counts) = (
      (true, write_chain h (slot k (length bs)) c),
      rw (locate_lem ready k, ◌>>=◌, e),
      record {
        buckets = set bs (slot k (length bs)) c;
        ready =
            write_chain-IsReady ready (slot k (length bs)) (inside ready k) c
              (λ q. ground (arith, counts q, ready.placed q (slot k (length bs))));
        returns = rw absent;
        reads = λ q.
            rw (view-set ready (slot k (length bs)) (inside ready k) c q) (ground (arith, reads q));
      },
    )

    -- With memory, `put_into_hash` stores the content exactly if the code is new, returns whether
    -- it did, and leaves every other code as it was.
    pub put_into_hash-Puts :
        (k : ℤ) (v : V) → (r : Bool × Hash V) × (put_into_hash h v k true ≡ some r) × Puts bs k v r
    put_into_hash-Puts k v = put_by k v _ refl (append_new-Appended v k (chain_of bs k))

    -- Without memory it returns 0 and changes nothing.
    pub put_into_hash-no_memory : (k : ℤ) (v : V) → put_into_hash h v k false ≡ some (false, h)
    unfolding put_into_hash
    put_into_hash-no_memory k v = elim (Option-cases (append_new v k (chain_of bs k))) [
      | inl e ↦ rw (locate_lem ready k, ◌>>=◌, e)
      | inr (c, e) ↦ rw (locate_lem ready k, ◌>>=◌, e)
    ]

  -- A code `k` at the head of its chain takes its whole bucket with it.
  unfoldable pub shares_lost : List (Chain V) → ℤ → ℤ → Bool
  shares_lost bs k q = is_head k (chain_of bs k) && (slot k (length bs) == slot q (length bs))

  pub record Deletes (bs : List (Chain V)) (k : ℤ) (r : Option V × Hash V) : Type ℓ where
    pub buckets : List (Chain V)
    pub ready : IsReady r.1 buckets
    pub returns : r.0 ≡ view bs k
    pub reads :
        (q : ℤ)
        → view buckets q
          ≡ ite (ℤ_discrete k q) none (if shares_lost bs k q then none else view bs q)

  is_head-find : (k : ℤ) (c : Chain V) → find k c ≡ none → is_head k c ≡ false
  unfolding is_head find
  is_head-find k [] e = refl
  is_head-find k (x ∷ xs) e = ground arith

  module _ {h : Hash V} {bs : List (Chain V)} (ready : IsReady h bs) where
    del_by :
        (k : ℤ) (o : Option (V × Chain V))
        → del_chain k (chain_of bs k) ≡ o
        → Deleted k (chain_of bs k) o
        → (r : Option V × Hash V) × (del_from_hash h k ≡ some r) × Deletes bs k r
    unfolding del_from_hash view shares_lost
    del_by k none e absent = (
      (none, h),
      rw (locate_lem ready k, ◌>>=◌, e),
      record {
        buckets = bs;
        ready = ready;
        returns = sym absent;
        reads = λ q. ground (arith, is_head-find k (chain_of bs k));
      },
    )
    del_by k (some (v, c)) e (found, reads, counts) = (
      (some v, write_chain h (slot k (length bs)) c),
      rw (locate_lem ready k, ◌>>=◌, e),
      record {
        buckets = set bs (slot k (length bs)) c;
        ready =
            write_chain-IsReady ready (slot k (length bs)) (inside ready k) c
              (λ q. ground (arith, counts q, ready.placed q (slot k (length bs))));
        returns = sym found;
        reads = λ q. rw (view-set ready (slot k (length bs)) (inside ready k) c q) (
            ground
              (arith, reads q, counts q, ready.placed q (slot k (length bs)), find_of_count q c));
      },
    )

    -- `del_from_hash` returns what was stored and removes it, and with it the whole bucket if
    -- the code was the first of its chain; every other code stays as it was.
    pub del_from_hash-Deletes :
        (k : ℤ) → (r : Option V × Hash V) × (del_from_hash h k ≡ some r) × Deletes bs k r
    del_from_hash-Deletes k = del_by k _ refl (del_chain-Deleted k (chain_of bs k))

    -- A second `init_hash` is refused.
    pub init_hash-refused : (m : ℤ) (memory : Bool) → init_hash h m memory ≡ (false, h)
    unfolding init_hash
    init_hash-refused (pos m) memory = rw ready.array (ground arith)
    init_hash-refused (negsuc m) memory = refl

  -- After `clean_hash` a positive size gives an empty table that is ready for use.
  pub init_hash-IsReady :
      (h : Hash V) (m : ℕ)
      → 0 < m
      → ((init_hash (clean_hash h) (pos m) true).0 ≡ true)
        × IsReady (init_hash (clean_hash h) (pos m) true).1 (replicate m [])
        × ((q : ℤ) → view {V = V} (replicate m []) q ≡ none)
  unfolding init_hash clean_hash view find count
  init_hash-IsReady h m lt =
      let e : (m == 0) ≡ false = ground arith in
      rw e (
        refl,
        record {
          array = refl;
          width = rw length-replicate;
          positive = lt;
          placed = λ q i. rw get_or-replicate (omega arith);
        },
        λ q. rw get_or-replicate,
      )
