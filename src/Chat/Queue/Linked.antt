-- ===== src/Chat/Queue/Linked.antt =====
-- MP4/MP4main.c: doubly linked segments of the waiting queue and the addresses in them.
use sp.Prelude.{
  ℕ, ◌≡◌, refl, ◌⊎◌, inl, inr, Bool, true, false, ◌||◌, List, [], ◌∷◌, ◌++◌, Option, some, arith,
  ◌==◌,
}
use sp.Chat.Queue.{Ptr, null, Node, Heap, write}

-- Address and value of each node, in order.
abbrev pub Cells : Type 0
Cells = List (Ptr × ℕ)

abbrev pub has : Ptr → Cells → Bool
has a [] = false
has a ((p, _) ∷ xs) = (p == a) || has a xs

abbrev pub first : Cells → Ptr → Ptr
first [] n = n
first ((p, _) ∷ _) n = p

abbrev pub last : Ptr → Cells → Ptr
last p [] = p
last p ((a, _) ∷ xs) = last a xs

abbrev pub IsDistinct : Cells → Type 0
IsDistinct [] = Unit
IsDistinct ((a, _) ∷ xs) = (has a xs ≡ false) × IsDistinct xs

-- The nodes `xs` stand in the heap, linked both ways, between the addresses `p` and `n`.
abbrev pub Linked : Heap → Ptr → Cells → Ptr → Type 0
Linked h p [] n = Unit
Linked h p ((a, v) ∷ xs) n =
    ((a == null) ≡ false)
    × (h a ≡ some (record { pre = p; value = v; next = first xs n }))
    × Linked h a xs n

-- None of the addresses of `ys` is one of `xs`.
abbrev pub Apart : Cells → Cells → Type 0
Apart xs [] = Unit
Apart xs ((a, _) ∷ ys) = (has a xs ≡ false) × Apart xs ys

pub Linked-write :
    (h : Heap) (a : Ptr) (c : Option Node) (p n : Ptr) (xs : Cells)
    → has a xs ≡ false
    → Linked h p xs n
    → Linked (write h a c) p xs n
unfolding write
Linked-write h a c p n [] out l = tt
Linked-write h a c p n ((b, v) ∷ xs) out (nn, here, l) =
    (nn, ground arith, Linked-write h a c b n xs (ground arith) l)

pub first-append : (us vs : Cells) (n : Ptr) → first (us ++ vs) n ≡ first us (first vs n)
first-append [] vs n = refl
first-append (u ∷ us) vs n = refl

pub last-append : (p : Ptr) (us vs : Cells) → last p (us ++ vs) ≡ last (last p us) vs
last-append p [] vs = refl
last-append p ((a, _) ∷ us) vs = last-append a us vs

pub has-append : (a : Ptr) (us vs : Cells) → has a (us ++ vs) ≡ (has a us || has a vs)
has-append a [] vs = refl
has-append a ((p, v) ∷ us) vs = ground (arith, has-append a us vs)

pub Linked-split :
    (h : Heap) (p n : Ptr) (us vs : Cells)
    → Linked h p (us ++ vs) n
    → Linked h p us (first vs n) × Linked h (last p us) vs n
Linked-split h p n [] vs l = (tt, l)
Linked-split h p n ((a, v) ∷ us) vs (nn, here, l) =
    let (f, b) = Linked-split h a n us vs l in ((nn, rw (first-append us vs n) at here, f), b)

pub Linked-join :
    (h : Heap) (p n : Ptr) (us vs : Cells)
    → Linked h p us (first vs n)
    → Linked h (last p us) vs n
    → Linked h p (us ++ vs) n
Linked-join h p n [] vs f b = b
Linked-join h p n ((a, v) ∷ us) vs (nn, here, f) b =
    (nn, rw (first-append us vs n) here, Linked-join h a n us vs f b)

pub IsDistinct-split :
    (us vs : Cells) → IsDistinct (us ++ vs) → IsDistinct us × IsDistinct vs × Apart us vs
IsDistinct-split [] vs d = (tt, d, none_apart vs)
  where
    none_apart : (ys : Cells) → Apart [] ys
    none_apart [] = tt
    none_apart (y ∷ ys) = (refl, none_apart ys)
IsDistinct-split ((a, v) ∷ us) vs (out, d) =
    let (du, dv, apart) = IsDistinct-split us vs d in
    let e = rw (has-append a us vs) at out in ((ground arith, du), dv, grow vs (ground arith) apart)
  where
    grow : (ys : Cells) → has a ys ≡ false → Apart us ys → Apart ((a, v) ∷ us) ys
    grow [] o ap = tt
    grow (y ∷ ys) o (e, ap) = (ground arith, grow ys (ground arith) ap)

pub Apart-symm : (us vs : Cells) (a : Ptr) → Apart us vs → has a us ≡ true → has a vs ≡ false
Apart-symm us [] a ap e = refl
Apart-symm us ((b, v) ∷ vs) a (o, ap) e = ground (arith, Apart-symm us vs a ap e)

pub IsDistinct-join :
    (us vs : Cells) → IsDistinct us → IsDistinct vs → Apart us vs → IsDistinct (us ++ vs)
IsDistinct-join [] vs du dv apart = dv
IsDistinct-join ((a, v) ∷ us) vs (out, du) dv apart = (
  rw (has-append a us vs, out) (Apart-symm ((a, v) ∷ us) vs a apart (ground arith)),
  IsDistinct-join us vs du dv (shrink vs apart),
)
  where
    shrink : (ys : Cells) → Apart ((a, v) ∷ us) ys → Apart us ys
    shrink [] ap = tt
    shrink (y ∷ ys) (e, ap) = (ground arith, shrink ys ap)

-- A list is empty or ends in some node.
abbrev pub Snoc : Cells → Type 0
Snoc xs = (xs ≡ []) ⊎ ((ys : Cells) × (b w : ℕ) × (xs ≡ ys ++ (b, w) ∷ []))

pub snoc : (xs : Cells) → Snoc xs
snoc [] = inl refl
snoc ((a, v) ∷ xs) = elim (snoc xs) [
  | inl e ↦ inr ([], a, v, rw e)
  | inr (ys, b, w, e) ↦ inr ((a, v) ∷ ys, b, w, rw e)
]
