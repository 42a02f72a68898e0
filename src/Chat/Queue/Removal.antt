-- ===== src/Chat/Queue/Removal.antt =====
-- MP4/MP4main.c: the loop that takes a client out of the waiting queue.
use sp.Prelude.{
  ℕ, ◌≡◌, refl, ap, ◌∙◌, inl, inr, [], ◌∷◌, ◌++◌, some, ◌==◌, if◌then◌else◌, length, Bool-cases,
  append_assoc,
}
use sp.Chat.Queue.{null, Queue, load, remove_loop, remove_waiting}
use sp.Chat.Queue.Linked.{Cells, first, Linked-split}
use sp.Chat.Queue.Refines.{IsQueue}
use sp.Chat.Queue.Deletes.{del-Without}

-- The list without its first node that holds `fd`.
unfoldable pub erase : ℕ → Cells → Cells
erase fd [] = []
erase fd ((a, v) ∷ xs) = if v == fd then xs else (a, v) ∷ erase fd xs

remove_loop-erase :
    (q : Queue) (fd : ℕ) (us vs : Cells)
    → IsQueue q (us ++ vs)
    → (r : Queue) × (remove_loop (length vs) fd q (first vs null) ≡ some r)
      × IsQueue r (us ++ erase fd vs)
unfolding remove_loop erase load
remove_loop-erase q fd us [] is = (q, refl, is)
remove_loop-erase q fd us ((a, v) ∷ vs) is =
    let (lu, (an, ha, lv)) = Linked-split q.heap null null us ((a, v) ∷ vs) is.linked in
    elim (Bool-cases (v == fd)) [
      | inl e ↦ let (r, run, is') = del-Without q us vs a v is in (r, rw (an, ha, e) run, rw e is')
      | inr e ↦
          let (r, run, is') =
            remove_loop-erase q fd (us ++ (a, v) ∷ []) vs
              (rw (append_assoc us ((a, v) ∷ []) vs) is) in
          (r, rw (an, ha, e) run, rw e (rw (append_assoc us ((a, v) ∷ []) (erase fd vs)) at is'))
    ]

-- The search loop takes out the first node that holds `fd`, and leaves a queue without one alone.
pub remove_waiting-erase :
    (q : Queue) (fd : ℕ) (xs : Cells)
    → IsQueue q xs
    → (r : Queue) × (remove_waiting q fd ≡ some r) × IsQueue r (erase fd xs)
unfolding remove_waiting
remove_waiting-erase q fd xs is =
    let (r, run, is') = remove_loop-erase q fd [] xs is in
    let start = ap (λ n. remove_loop n fd q q.front) is.size in
    let visit = ap (λ p. remove_loop (length xs) fd q p) is.front in (r, start ∙ visit ∙ run, is')
