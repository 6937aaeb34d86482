-- ===== src/MList.antt =====
-- Shared/mlist.c: doubly linked lists over an explicit heap of nodes. A `void*` and a `node_t*` are
-- numbers, NULL is 0. A `struct mlist` lives outside the heap, so a function that updates one
-- returns the new value. `none` is a fault: a read or a write through NULL or a dangling pointer,
-- or a loop that ran out of fuel. The mutexes are left out: one thread runs at a time.
pub mod Append
pub mod Chain
pub mod Insert
pub mod Remove
pub mod RemoveAll
pub mod Search
pub mod Sort
pub mod Traverse
pub mod Walk
mod Tests
use opsys_17b.Base.{
  ℕ, zero, suc, ◌+◌, ◌-◌, ◌/◌, ◌%◌, Bool, true, false, not, ◌&&◌, Option, none, some, ◌==◌, ltb,
  leb, if◌then◌else◌, ℤ, pos, negsuc,
}

abbrev pub Ptr : Type 0
Ptr = ℕ

abbrev pub null : Ptr
null = 0

pub record Node : Type 0 where
  pub prev : Ptr
  pub next : Ptr
  pub elem : ℕ

abbrev pub node : Ptr → Ptr → ℕ → Node
node p n e = record { prev = p; next = n; elem = e }

abbrev pub Heap : Type 0
Heap = Ptr → Option Node

unfoldable pub write : Heap → Ptr → Option Node → Heap
write h p c a = if a == p then c else h a

-- `struct mlist`
pub record MList : Type 0 where
  pub head : Ptr
  pub tail : Ptr
  pub length : ℕ

abbrev pub mlist : Ptr → Ptr → ℕ → MList
mlist hd tl n = record { head = hd; tail = tl; length = n }

-- A step of the program: a result with the heap that it leaves, or a fault.
abbrev pub M : Type 0 → Type 0
M A = Heap → Option (A × Heap)

abbrev pub fault : {A : Type 0} → M A
fault heap = none

infixl 5 ◌>>=◌
abbrev pub ◌>>=◌ : {A B : Type 0} → M A → (A → M B) → M B
◌>>=◌ act next heap = elim (act heap) [ some (a, heap') ↦ next a heap' | none ↦ none ]

infixl 5 ◌>>◌
abbrev pub ◌>>◌ : {B : Type 0} → M (Unit {0}) → M B → M B
act >> next = act >>= λ done. next

abbrev pub pure : {A : Type 0} → A → M A
pure a heap = some (a, heap)

unfoldable pub load : Ptr → M Node
load p h = if p == null then none else elim (h p) [ none ↦ none | some n ↦ some (n, h) ]

abbrev pub store : Ptr → Option Node → M (Unit {0})
store p c h = some (tt, write h p c)

unfoldable pub set_next : Ptr → Ptr → M (Unit {0})
set_next p q = do n ← load p; store p (some (record n { next = q }))

unfoldable pub set_prev : Ptr → Ptr → M (Unit {0})
set_prev p q = do n ← load p; store p (some (record n { prev = q }))

unfoldable pub set_elem : Ptr → ℕ → M (Unit {0})
set_elem p e = do n ← load p; store p (some (record n { elem = e }))

unfoldable pub free : Ptr → M (Unit {0})
free p = load p >>= λ _. store p none

unfoldable pub mlist_create : MList
mlist_create = mlist null null 0

-- `create_node`; `fresh` is what `malloc` returns.
unfoldable pub create_node : (fresh : Ptr) → ℕ → M Ptr
create_node fresh e = do store fresh (some (node null null e)); pure fresh

unfoldable pub insert_before : MList → (base new : Ptr) → M MList
insert_before l base new = if l.length == 0 then pure (mlist new new (l.length + 1)) else do
  b ← load base
  set_prev new b.prev
  set_next new base
  set_prev base new
  n ← load new
  if n.prev == null
      then pure (mlist new l.tail (l.length + 1))
      else do set_next n.prev new; pure (mlist l.head l.tail (l.length + 1))

unfoldable pub insert_after : MList → (base new : Ptr) → M MList
insert_after l base new = if l.length == 0 then pure (mlist new new (l.length + 1)) else do
  b ← load base
  set_next new b.next
  set_prev new base
  set_next base new
  n ← load new
  if n.next == null
      then pure (mlist l.head new (l.length + 1))
      else do set_prev n.next new; pure (mlist l.head l.tail (l.length + 1))

-- `while(index-- > 0) node = node->next`
unfoldable pub forward : ℕ → Ptr → M Ptr
forward zero p = pure p
forward (suc k) p = load p >>= λ n. forward k n.next

-- `while(++index < list->length) node = node->prev`
unfoldable pub backward : ℕ → Ptr → M Ptr
backward zero p = pure p
backward (suc k) p = load p >>= λ n. backward k n.prev

-- `get_node`; a negative index is out of range. The half that is nearer is walked.
unfoldable pub get_node : MList → ℤ → M Ptr
get_node l (negsuc i) = pure null
get_node l (pos i) =
    if leb l.length i
    then pure null
    else if leb i (l.length / 2)
    then forward i l.head
    else backward (l.length - 1 - i) l.tail

-- `if(node->prev != NULL) node->prev->next = node->next`, and the same of the other side.
unfoldable pub bypass_prev : Node → M (Unit {0})
bypass_prev n = if n.prev == null then pure tt else set_next n.prev n.next

unfoldable pub bypass_next : Node → M (Unit {0})
bypass_next n = if n.next == null then pure tt else set_prev n.next n.prev

unfoldable pub remove_node : MList → Ptr → M (ℕ × MList)
remove_node l p = do
  n ← load p
  bypass_prev n
  bypass_next n
  free p
  pure (
    n.elem,
    mlist (if p == l.head then n.next else l.head) (if p == l.tail then n.prev else l.tail)
        (l.length - 1),
  )

unfoldable pub mlist_append : (fresh : Ptr) → MList → ℕ → M MList
mlist_append fresh l e = create_node fresh e >>= λ new. insert_after l l.tail new

unfoldable pub mlist_insert : (fresh : Ptr) → MList → ℤ → ℕ → M MList
mlist_insert fresh l (negsuc i) e = pure l
mlist_insert fresh l (pos i) e = if ltb l.length i then pure l else do
  new ← create_node fresh e
  if ltb i l.length
      then (do
        base ← (if i == 0 then pure l.head else get_node l (pos i))
        insert_before l base new)
      else insert_after l l.tail new

unfoldable pub mlist_pop : MList → ℤ → M (ℕ × MList)
mlist_pop l i = do p ← get_node l i; if p == null then pure (null, l) else remove_node l p

-- `get_elem`
unfoldable pub get_elem : Ptr → M ℕ
get_elem p = if p == null then pure null else load p >>= λ n. pure n.elem

unfoldable pub mlist_get : MList → ℤ → M ℕ
mlist_get l i = get_node l i >>= get_elem

unfoldable pub mlist_first : MList → M ℕ
mlist_first l = if l.length == 0 then pure null else load l.head >>= λ n. pure n.elem

unfoldable pub mlist_last : MList → M ℕ
mlist_last l = if l.length == 0 then pure null else load l.tail >>= λ n. pure n.elem

unfoldable pub mlist_replace : MList → ℤ → ℕ → M ℕ
mlist_replace l i e = do
  p ← get_node l i
  if p == null then pure null else do n ← load p; set_elem p e; pure n.elem

-- The loop of `mlist_find` and, with its counter, of `mlist_index`, on fuel.
unfoldable pub find_loop : (ℕ → Bool) → ℕ → Ptr → ℕ → M (Ptr × ℕ)
find_loop cond zero p index = fault
find_loop cond (suc fuel) p index = if p == null then pure (p, index) else do
  n ← load p
  if cond n.elem then pure (p, index) else find_loop cond fuel n.next (index + 1)

unfoldable pub mlist_index : (ℕ → Bool) → MList → M ℤ
mlist_index cond l = do
  (p, index) ← find_loop cond (l.length + 1) l.head 0
  pure (if ltb index l.length then pos index else negsuc 0)

unfoldable pub mlist_find : (ℕ → Bool) → MList → M ℕ
mlist_find cond l = do (p, index) ← find_loop cond (l.length + 1) l.head 0; get_elem p

unfoldable pub mlist_contains : MList → ℕ → M Bool
mlist_contains l e = do
  index ← mlist_index (λ x. x == e) l
  pure (elim index [ pos i ↦ true | negsuc i ↦ false ])

unfoldable pub mlist_any : (ℕ → Bool) → MList → M Bool
mlist_any cond l = do e ← mlist_find cond l; pure (not (e == null))

unfoldable pub mlist_all : (ℕ → Bool) → MList → M Bool
mlist_all cond l = do b ← mlist_any (λ e. not (cond e)) l; pure (not b)

-- `mlist_remove`: `traverse_nodes` with `remove_node` on the nodes that meet the condition. The
-- successor is read before the node goes. The result is the element removed last.
unfoldable pub remove_loop : (ℕ → Bool) → ℕ → MList → Ptr → ℕ → M (ℕ × MList)
remove_loop cond zero l p out = fault
remove_loop cond (suc fuel) l p out = if p == null then pure (out, l) else do
  n ← load p
  if cond n.elem
      then (do (e, l') ← remove_node l p; remove_loop cond fuel l' n.next e)
      else remove_loop cond fuel l n.next out

unfoldable pub mlist_remove : (ℕ → Bool) → MList → M (ℕ × MList)
mlist_remove cond l = remove_loop cond (l.length + 1) l l.head null

-- `mlist_reduce`
unfoldable pub reduce_loop : (ℕ → ℕ → ℕ) → ℕ → Ptr → ℕ → M ℕ
reduce_loop add zero p sum = fault
reduce_loop add (suc fuel) p sum =
    if p == null then pure sum else do n ← load p; reduce_loop add fuel n.next (add sum n.elem)

unfoldable pub mlist_reduce : (ℕ → ℕ → ℕ) → MList → M ℕ
mlist_reduce add l = reduce_loop add (l.length + 1) l.head 0
