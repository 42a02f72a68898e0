-- ===== src/Loser/Files/Sorted.antt =====
-- MP1/main.c: sorting the names of a directory changes only their order.
use Prim.Native.Nat.{Ordering}
use sp.Prelude.{
  suc, ◌≡◌, refl, ap, ◌∙◌, inl, inr, ◌⊎◌, List, [], ◌∷◌, none, false, length, arith, Bool-cases,
}
use sp.Loser.Text.{Text, strcmp, same}
use sp.Loser.Text.Laws.{same→≡, same_sym}
use sp.Loser.Files.{Entry, insert_entry, qsort, lookup}

-- No two entries have the same name.
abbrev pub AreDistinct : List Entry → Type 0
AreDistinct [] = Unit {0}
AreDistinct (e ∷ es) = (lookup e.name es ≡ none) × AreDistinct es

-- Where an element is put: in front, or behind the first one.
insert-cases :
    (e x : Entry) (xs : List Entry)
    → (insert_entry e (x ∷ xs) ≡ e ∷ x ∷ xs) ⊎ (insert_entry e (x ∷ xs) ≡ x ∷ insert_entry e xs)
unfolding insert_entry
insert-cases e x xs = by (strcmp e.name x.name) refl
  where
    by :
        (o : Ordering)
        → strcmp e.name x.name ≡ o
        → (insert_entry e (x ∷ xs) ≡ e ∷ x ∷ xs) ⊎ (insert_entry e (x ∷ xs) ≡ x ∷ insert_entry e xs)
    by Ordering.lt h = inl (rw (insert_entry, h))
    by Ordering.eq h = inl (rw (insert_entry, h))
    by Ordering.gt h = inr (rw (insert_entry, h))

lookup_swap :
    (e x : Entry) (n : Text) (xs : List Entry)
    → same x.name e.name ≡ false
    → lookup n (x ∷ e ∷ xs) ≡ lookup n (e ∷ x ∷ xs)
unfolding lookup
lookup_swap e x n xs h = elim (Bool-cases (same e.name n)) [
  | inl a ↦ let p = same→≡ e.name n a in let h' = rw p at h in rw (a, h')
  | inr a ↦ rw a
]

lookup_behind :
    (n : Text) (x : Entry) (xs ys : List Entry)
    → lookup n xs ≡ lookup n ys
    → lookup n (x ∷ xs) ≡ lookup n (x ∷ ys)
unfolding lookup
lookup_behind n x xs ys h = rw h

not_same :
    (n : Text) (x : Entry) (xs : List Entry) → lookup n (x ∷ xs) ≡ none → same x.name n ≡ false
unfolding lookup
not_same n x xs h = ground arith

not_later : (n : Text) (x : Entry) (xs : List Entry) → lookup n (x ∷ xs) ≡ none → lookup n xs ≡ none
unfolding lookup
not_later n x xs h = ground arith

lookup-insert_entry :
    (n : Text) (e : Entry) (xs : List Entry)
    → lookup e.name xs ≡ none
    → lookup n (insert_entry e xs) ≡ lookup n (e ∷ xs)
unfolding insert_entry
lookup-insert_entry n e [] h = refl
lookup-insert_entry n e (x ∷ xs) h = elim (insert-cases e x xs) [
  | inl i ↦ rw i
  | inr i ↦ rw i (
      lookup_behind n x _ _ (lookup-insert_entry n e xs (not_later e.name x xs h))
      ∙ lookup_swap e x n xs (not_same e.name x xs h))
]

not_both :
    (x e : Entry) (xs : List Entry)
    → same x.name e.name ≡ false
    → lookup x.name xs ≡ none
    → lookup x.name (e ∷ xs) ≡ none
unfolding lookup
not_both x e xs h l = rw (same_sym e.name x.name, h, l)

insert_entry-AreDistinct :
    (e : Entry) (xs : List Entry)
    → lookup e.name xs ≡ none
    → AreDistinct xs
    → AreDistinct (insert_entry e xs)
unfolding insert_entry
insert_entry-AreDistinct e [] h d = (h, d)
insert_entry-AreDistinct e (x ∷ xs) h (out, d) = elim (insert-cases e x xs) [
  | inl i ↦ rw i (h, (out, d))
  | inr i ↦
      let later = not_later e.name x xs h in
      rw i (
        lookup-insert_entry x.name e xs later ∙ not_both x e xs (not_same e.name x xs h) out,
        insert_entry-AreDistinct e xs later d,
      )
]

-- The same files stand under the same names.
pub lookup-qsort : (n : Text) (es : List Entry) → AreDistinct es → lookup n (qsort es) ≡ lookup n es
unfolding qsort
lookup-qsort n [] d = refl
lookup-qsort n (e ∷ es) (out, d) =
    lookup-insert_entry n e (qsort es) (lookup-qsort e.name es d ∙ out)
    ∙ lookup_behind n e _ _ (lookup-qsort n es d)

pub qsort-AreDistinct : (es : List Entry) → AreDistinct es → AreDistinct (qsort es)
unfolding qsort
qsort-AreDistinct [] d = d
qsort-AreDistinct (e ∷ es) (out, d) =
    insert_entry-AreDistinct e (qsort es) (lookup-qsort e.name es d ∙ out) (qsort-AreDistinct es d)

length-insert_entry : (e : Entry) (xs : List Entry) → length (insert_entry e xs) ≡ suc (length xs)
unfolding insert_entry
length-insert_entry e [] = refl
length-insert_entry e (x ∷ xs) = elim (insert-cases e x xs) [
  | inl i ↦ rw i
  | inr i ↦ rw i (ap suc (length-insert_entry e xs))
]

pub length-qsort : (es : List Entry) → length (qsort es) ≡ length es
unfolding qsort
length-qsort [] = refl
length-qsort (e ∷ es) = length-insert_entry e (qsort es) ∙ ap suc (length-qsort es)

-- What holds of every entry.
abbrev pub All : (Entry → Type 0) → List Entry → Type 0
All P [] = Unit {0}
All P (e ∷ es) = P e × All P es

insert_entry-All :
    (P : Entry → Type 0) (e : Entry) (xs : List Entry) → P e → All P xs → All P (insert_entry e xs)
unfolding insert_entry
insert_entry-All P e [] p a = (p, a)
insert_entry-All P e (x ∷ xs) p (q, a) = elim (insert-cases e x xs) [
  | inl i ↦ rw i (p, (q, a))
  | inr i ↦ rw i (q, insert_entry-All P e xs p a)
]

pub qsort-All : (P : Entry → Type 0) (es : List Entry) → All P es → All P (qsort es)
unfolding qsort
qsort-All P [] a = a
qsort-All P (e ∷ es) (p, a) = insert_entry-All P e (qsort es) p (qsort-All P es a)
