-- ===== src/Hash/Examples.antt =====
-- MP5/src/hash.c: a table of two buckets, runs of its operations, and the theorems at it.
use sp.Prelude.{
  ℕ, zero, suc, ◌≡◌, ◌↔◌, refl, List, [], ◌∷◌, Option, none, some, Bool, true, ℤ, pos, negsuc, rem,
  arith, ℤ_discrete, ◌==◌, replicate,
}
use sp.Hash.{
  HashNode, Chain, Hash, slot, contents, locate, write_chain, unlink, del_chain, init_hash,
  clean_hash, put_into_hash, get_from_hash, del_from_hash, get_from_hash_by_path,
  init_hash_iterator,
}
use sp.Hash.Nodes.{count}
use sp.Hash.Table.{view, IsPlaced, IsReady}
use sp.Hash.Operations.{Puts, Deletes, put_into_hash-Puts, del_from_hash-Deletes, init_hash-IsReady}
use sp.Hash.Lookup.{IsStored, get_from_hash-IsStored}
use sp.Hash.Path.{Removes, get_from_hash_by_path-Removes}
use sp.Hash.Iterator.{visited, visited-contents}

abbrev entry : ℕ → ℤ → HashNode ℕ
entry v k = record { contain = v; hash_code = k }

-- The codes 1 and -1 share bucket 1.
abbrev two_buckets : List (Chain ℕ)
two_buckets = (entry 20 (pos 2) ∷ []) ∷ (entry 10 (pos 1) ∷ entry 30 (negsuc 0) ∷ []) ∷ []

abbrev table : Hash ℕ
table = record { node = some two_buckets; n = 2 }

table-IsReady : IsReady table two_buckets
unfolding count slot rem
table-IsReady = record { array = refl; width = refl; positive = omega arith; placed = placed }
  where
    placed : IsPlaced two_buckets
    placed q zero = ground arith
    placed q (suc zero) = ground arith
    placed q (suc (suc i)) = (omega arith, λ _. refl)

-- Deleting the code 1, the head of bucket 1, loses the code -1 as well.
del_loses :
    del_from_hash table (pos 1)
    ≡ some (some 10, record { node = some ((entry 20 (pos 2) ∷ []) ∷ [] ∷ []); n = 2 })
unfolding del_from_hash locate del_chain unlink write_chain slot rem ℤ_discrete
del_loses = refl

put_into_hash-Puts_example :
    (r : Bool × Hash ℕ) × (put_into_hash table 40 (pos 3) true ≡ some r)
    × Puts two_buckets (pos 3) 40 r
put_into_hash-Puts_example = put_into_hash-Puts table-IsReady (pos 3) 40

get_from_hash-IsStored_example :
    (o : Option ℕ) × (get_from_hash table (negsuc 0) ≡ some o)
    × ((v : ℕ) → (o ≡ some v) ↔ IsStored two_buckets (negsuc 0) v)
get_from_hash-IsStored_example = get_from_hash-IsStored table-IsReady (negsuc 0)

del_from_hash-Deletes_example :
    (r : Option ℕ × Hash ℕ) × (del_from_hash table (pos 1) ≡ some r) × Deletes two_buckets (pos 1) r
del_from_hash-Deletes_example = del_from_hash-Deletes table-IsReady (pos 1)

init_hash-IsReady_example :
    ((init_hash (clean_hash table) (pos 100) true).0 ≡ true)
    × IsReady (init_hash (clean_hash table) (pos 100) true).1 (replicate 100 [])
    × ((q : ℤ) → view {V = ℕ} (replicate 100 []) q ≡ none)
init_hash-IsReady_example = init_hash-IsReady table 100 (omega arith)

get_from_hash_by_path-Removes_example :
    (r : ℕ × Hash ℕ) × (get_from_hash_by_path table (λ v. v == 30) ≡ some r)
    × Removes (λ v. v == 30) table-IsReady r
get_from_hash_by_path-Removes_example = get_from_hash_by_path-Removes (λ v. v == 30) table-IsReady

visited-contents_example :
    visited 4 (init_hash_iterator (record { hash = table; node = []; n = 0 }) table)
    ≡ some (contents two_buckets)
unfolding contents
visited-contents_example =
    visited-contents table-IsReady (record { hash = table; node = []; n = 0 }) 4 (omega arith)
