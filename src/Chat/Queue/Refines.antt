-- ===== src/Chat/Queue/Refines.antt =====
-- MP4/MP4main.c: `insert` and `del` refine adding at the back of a list and taking one element out.
use sp.Prelude.{
  ℕ, ◌+◌, ◌≡◌, refl, sym, ◌∙◌, inl, inr, true, false, [], ◌∷◌, ◌++◌, Option, some, arith, ◌==◌,
  length, length-append,
}
use sp.Chat.Queue.{Ptr, null, Node, Heap, Queue, write, load, set_pre, set_next, node, insert}
use sp.Chat.Queue.Linked.{
  Cells, has, first, last, IsDistinct, Linked, Linked-write, first-append, last-append, has-append,
  Linked-split, Linked-join, IsDistinct-split, IsDistinct-join, snoc,
}

-- The queue `q` holds the nodes `xs`, front to back.
pub record IsQueue (q : Queue) (xs : Cells) : Type 0 where
  pub linked : Linked q.heap null xs null
  pub distinct : IsDistinct xs
  pub front : q.front ≡ first xs null
  pub end : q.end ≡ last null xs
  pub size : q.size ≡ length xs

module _ (h : Heap) (p : Ptr) (c : Node) (nn : (p == null) ≡ false) (here : h p ≡ some c) where
  pub load_lem : load h p ≡ some c
  unfolding load
  load_lem = rw nn here

  pub set_pre_lem : (v : Ptr) → set_pre h p v ≡ some (write h p (some (record c { pre = v })))
  unfolding set_pre
  set_pre_lem v = rw load_lem

  pub set_next_lem : (v : Ptr) → set_next h p v ≡ some (write h p (some (record c { next = v })))
  unfolding set_next
  set_next_lem v = rw load_lem

pub write_same : (h : Heap) (p : Ptr) (c : Option Node) → write h p c p ≡ c
unfolding write
write_same h p c = ground arith

pub write_other : (h : Heap) (p q : Ptr) (c : Option Node) → (p == q) ≡ false → write h p c q ≡ h q
unfolding write
write_other h p q c e = rw e

-- A list that ends in a node is not empty, and its first node does not depend on what follows.
pub size_snoc : (n : ℕ) (ys : Cells) (u : Ptr × ℕ) → n ≡ length (ys ++ u ∷ []) → (n == 0) ≡ false
size_snoc n ys u e = ground (arith, length-append {0} ys (u ∷ []))

pub first_snoc :
    (ys : Cells) (u : Ptr × ℕ) (n m : Ptr) → first (ys ++ u ∷ []) n ≡ first (ys ++ u ∷ []) m
first_snoc [] u n m = refl
first_snoc (y ∷ ys) u n m = refl

insert-some :
    (q : Queue) (fresh v : ℕ) (ys : Cells) (b w : ℕ)
    → IsQueue q (ys ++ (b, w) ∷ [])
    → (fresh == null) ≡ false
    → has fresh (ys ++ (b, w) ∷ []) ≡ false
    → (r : Queue) × (insert q fresh v ≡ some r) × IsQueue r ((ys ++ (b, w) ∷ []) ++ (fresh, v) ∷ [])
unfolding insert
insert-some q fresh v ys b w is nn out =
    let xs = ys ++ (b, w) ∷ [] in
    let eb : q.end ≡ b = is.end ∙ last-append null ys ((b, w) ∷ []) in
    let (lf, (bn, hb, _)) = Linked-split q.heap null null ys ((b, w) ∷ []) is.linked in
    let (dy, db, ap) = IsDistinct-split ys ((b, w) ∷ []) is.distinct in
    let fo = rw (has-append fresh ys ((b, w) ∷ [])) at out in
    let fy : has fresh ys ≡ false = ground arith in
    let fb : (b == fresh) ≡ false = ground arith in
    let h1 = write q.heap fresh (some (node b v null)) in
    let hb1 = write_other q.heap fresh b (some (node b v null)) (ground arith) ∙ hb in
    let b' : Node = node (last null ys) w fresh in
    let h2 = write h1 b (some b') in
    let r : Queue = record { heap = h2; front = q.front; end = fresh; size = q.size + 1 } in
    let full : (q.size == 0) ≡ false = size_snoc q.size ys (b, w) is.size in
    let front =
      Linked-write h1 b (some b') null b ys (ground arith)
        (Linked-write q.heap fresh (some (node b v null)) null b ys fy lf) in
    (
      r,
      rw (nn, full, eb, set_next_lem h1 b _ bn hb1 fresh),
      record {
        linked =
            Linked-join h2 null null xs ((fresh, v) ∷ [])
              (Linked-join h2 null fresh ys ((b, w) ∷ []) front (bn, write_same h1 b (some b'), tt))
              (rw (last-append null ys ((b, w) ∷ []))
                (nn, write_other h1 b fresh _ fb ∙ write_same q.heap fresh _, tt));
        distinct = IsDistinct-join xs ((fresh, v) ∷ []) is.distinct (refl, tt) (out, tt);
        front =
            is.front
            ∙ first_snoc ys (b, w) null fresh
            ∙ sym (first-append xs ((fresh, v) ∷ []) null);
        end = sym (last-append null xs ((fresh, v) ∷ []));
        size = omega (arith, is.size, length-append {0} xs ((fresh, v) ∷ []));
      },
    )

insert_empty :
    (q : Queue) (fresh v : ℕ)
    → IsQueue q []
    → (fresh == null) ≡ false
    → (r : Queue) × (insert q fresh v ≡ some r) × IsQueue r ((fresh, v) ∷ [])
unfolding insert
insert_empty q fresh v is nn =
    let none_yet : (q.size == 0) ≡ true = ground (arith, is.size) in
    (
      record {
        heap = write q.heap fresh (some (node null v null));
        front = fresh;
        end = fresh;
        size = q.size + 1;
      },
      rw (nn, none_yet),
      record {
        linked = (nn, write_same q.heap fresh _, tt);
        distinct = (refl, tt);
        front = refl;
        end = refl;
        size = omega (arith, is.size);
      },
    )

-- `insert` with a new address adds one node at the back, and the queue stays well formed.
pub insert-append :
    (q : Queue) (fresh v : ℕ) (xs : Cells)
    → IsQueue q xs
    → (fresh == null) ≡ false
    → has fresh xs ≡ false
    → (r : Queue) × (insert q fresh v ≡ some r) × IsQueue r (xs ++ (fresh, v) ∷ [])
insert-append q fresh v xs is nn out = elim (snoc xs) [
  | inl e ↦ rw e (insert_empty q fresh v (rw e at is) nn)
  | inr (ys, b, w, e) ↦ rw e (insert-some q fresh v ys b w (rw e at is) nn (rw e at out))
]
