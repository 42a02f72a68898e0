-- ===== src/Chat/Queue/Examples.antt =====
-- MP4/MP4main.c: a queue of three nodes, and the theorems at it.
use sp.Prelude.{◌≡◌, refl, [], ◌∷◌, ◌++◌, none, some}
use sp.Chat.Queue.{Heap, Queue, null, node, write, insert, remove_waiting}
use sp.Chat.Queue.Linked.{Cells}
use sp.Chat.Queue.Refines.{IsQueue, insert-append}
use sp.Chat.Queue.Deletes.{Without, del-Without}
use sp.Chat.Queue.Removal.{erase, remove_waiting-erase}

-- Clients 4, 5 and 6 wait, in the nodes at 10, 20 and 30.
abbrev heap : Heap
heap =
    write (write (write (λ _. none) 10 (some (node null 4 20))) 20 (some (node 10 5 30))) 30
      (some (node 20 6 null))

abbrev three : Queue
three = record { heap = heap; front = 10; end = 30; size = 3 }

abbrev cells : Cells
cells = (10, 4) ∷ (20, 5) ∷ (30, 6) ∷ []

three-IsQueue : IsQueue three cells
unfolding write
three-IsQueue = record {
  linked = (refl, refl, (refl, refl, (refl, refl, tt)));
  distinct = (refl, (refl, (refl, tt)));
  front = refl;
  end = refl;
  size = refl;
}

insert-append_example :
    (r : Queue) × (insert three 40 7 ≡ some r) × IsQueue r (cells ++ (40, 7) ∷ [])
insert-append_example = insert-append three 40 7 cells three-IsQueue refl refl

del-Without_example : Without three 20 ((10, 4) ∷ (30, 6) ∷ [])
del-Without_example = del-Without three ((10, 4) ∷ []) ((30, 6) ∷ []) 20 5 three-IsQueue

remove_waiting-erase_example :
    (r : Queue) × (remove_waiting three 6 ≡ some r) × IsQueue r (erase 6 cells)
remove_waiting-erase_example = remove_waiting-erase three 6 cells three-IsQueue
