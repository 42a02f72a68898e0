-- ===== src/Chat/Queue.antt =====
-- MP4/MP4main.c: the waiting queue, a doubly linked list with `front`, `end` and `size`.
-- The heap maps addresses to nodes; `none` as a result is a read or write through NULL or through
-- a freed node.
pub mod Linked
pub mod Refines
pub mod Deletes
pub mod Removal
mod Examples
use sp.Prelude.{
  ℕ, zero, suc, ◌+◌, ◌-◌, Option, none, some, Bool, true, false, ◌&&◌, ◌==◌, if◌then◌else◌, ◌>>=◌,
}

abbrev pub Ptr : Type 0
Ptr = ℕ

abbrev pub null : Ptr
null = 0

-- `list`
pub record Node : Type 0 where
  pub pre : Ptr
  pub value : ℕ
  pub next : Ptr

abbrev pub Heap : Type 0
Heap = Ptr → Option Node

pub record Queue : Type 0 where
  pub heap : Heap
  pub front : Ptr
  pub end : Ptr
  pub size : ℕ

unfoldable pub write : Heap → Ptr → Option Node → Heap
write h p c q = if p == q then c else h q

unfoldable pub load : Heap → Ptr → Option Node
load h p = if p == null then none else h p

-- `p->pre = v` and `p->next = v`
unfoldable pub set_pre : Heap → Ptr → Ptr → Option Heap
unfolding load write
set_pre h p v = do c ← load h p; some (write h p (some (record c { pre = v })))

unfoldable pub set_next : Heap → Ptr → Ptr → Option Heap
unfolding load write
set_next h p v = do c ← load h p; some (write h p (some (record c { next = v })))

abbrev pub node : Ptr → ℕ → Ptr → Node
node p v n = record { pre = p; value = v; next = n }

-- `malloc` returns `fresh`; its result is used unchecked.
unfoldable pub insert : Queue → Ptr → ℕ → Option Queue
unfolding write set_next
insert q fresh value =
    if fresh == null
    then none
    else if q.size == 0
    then some (record {
      heap = write q.heap fresh (some (node null value null));
      front = fresh;
      end = fresh;
      size = q.size + 1;
    })
    else do
      h ← set_next (write q.heap fresh (some (node q.end value null))) q.end fresh
      some (record { heap = h; front = q.front; end = fresh; size = q.size + 1 })

-- The four branches of `del`, `pre` and `next` being those of the target.
unfoldable pub del_only : Queue → Option Queue
unfolding write
del_only q =
    some (record { heap = write q.heap q.front none; front = null; end = null; size = q.size - 1 })

unfoldable pub del_front : Queue → Option Queue
unfolding load set_pre write
del_front q = do
  c ← load q.heap q.front
  h ← set_pre q.heap c.next null
  some (record { heap = write h q.front none; front = c.next; end = q.end; size = q.size - 1 })

unfoldable pub del_end : Queue → Ptr → Ptr → Option Queue
unfolding set_next write
del_end q target pre = do
  h ← set_next q.heap pre null
  some (record { heap = write h target none; front = q.front; end = pre; size = q.size - 1 })

unfoldable pub del_middle : Queue → Ptr → Ptr → Ptr → Option Queue
unfolding set_pre set_next write
del_middle q target pre next = do
  h ← set_next (write q.heap target none) pre next
  g ← set_pre h next pre
  some (record { heap = g; front = q.front; end = q.end; size = q.size - 1 })

unfoldable pub del_at : Queue → Ptr → Node → Option Queue
unfolding del_only del_front del_end del_middle
del_at q target t =
    if t.next == null && t.pre == null
    then del_only q
    else if t.pre == null
    then del_front q
    else if t.next == null
    then del_end q target t.pre
    else del_middle q target t.pre t.next

unfoldable pub del : Queue → Ptr → Option Queue
unfolding load del_at
del q target = load q.heap target >>= del_at q target

-- `for (i = 0; i < size; i++) { if (visit->value == fd) { del(visit); break; } visit = visit->next; }`
unfoldable pub remove_loop : ℕ → ℕ → Queue → Ptr → Option Queue
remove_loop zero fd q visit = some q
remove_loop (suc rounds) fd q visit = do
  c ← load q.heap visit
  let rest = remove_loop rounds fd q c.next
  if c.value == fd then del q visit else rest

unfoldable pub remove_waiting : Queue → ℕ → Option Queue
unfolding remove_loop
remove_waiting q fd = remove_loop q.size fd q q.front
