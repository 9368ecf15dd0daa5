-- ===== src/Bustd/LinkedList.antt =====
-- `List<T>` of bustd/list.hpp, with its nodes in a store. A pointer is `none` or an address; reading
-- through `none` or at an address that holds no node is a fault. `new` takes the address `fresh`,
-- `delete` empties the cell. The copies and moves of whole lists and the other iterator are left out.
pub mod Chain
pub mod Insert
pub mod Take
pub mod Walk
pub mod Looping
mod Tests
use bunos.Prelude.{
  ℕ, zero, suc, ◌+◌, ◌-◌, ◌*◌, ◌%◌, ◌^◌, Bool, true, false, Option, some, none, Result, ok, panic,
  fault, timeout, ◌>>=◌, ◌>>◌, check, access, ltb, ◌==◌, if◌then◌else◌, add32, sub32,
}

pub record Node (A : Type 0) : Type 0 where
  pub prev : Option ℕ
  pub next : Option ℕ
  pub val : A

pub record Store (A : Type 0) : Type 0 where
  pub cell : ℕ → Option (Node A)
  pub fresh : ℕ

pub record LinkedList : Type 0 where
  pub head : Option ℕ
  pub tail : Option ℕ
  pub size : ℕ

abbrev pub empty_list : LinkedList
empty_list = record { head = none; tail = none; size = 0 }

abbrev pub is_some : Option ℕ → Bool
is_some none = false
is_some (some p) = true

-- Equality of pointers.
unfoldable pub same_pointer : Option ℕ → Option ℕ → Bool
same_pointer none none = true
same_pointer (some p) (some q) = p == q
same_pointer none (some q) = false
same_pointer (some p) none = false

module _ {A : Type 0} where
  abbrev pub put : Store A → ℕ → Option (Node A) → Store A
  put s p c = record s { cell = λ q. if q == p then c else s.cell q }

  -- The node behind a pointer, with its address.
  unfoldable pub deref : Store A → Option ℕ → Result (ℕ × Node A)
  deref s none = fault
  deref s (some p) = do n ← access (s.cell p); ok (p, n)

  -- `new Node(val)`.
  unfoldable pub new_node : Store A → A → ℕ × Store A
  new_node s v = (
    s.fresh,
    record (put s s.fresh (some (record { prev = none; next = none; val = v }))) {
      fresh = s.fresh + 1;
    },
  )

  -- `p->next = q` and `p->prev = q`.
  unfoldable pub set_next : Store A → Option ℕ → Option ℕ → Result (Store A)
  unfolding deref
  set_next s p q = do (a, n) ← deref s p; ok (put s a (some (record n { next = q })))

  unfoldable pub set_prev : Store A → Option ℕ → Option ℕ → Result (Store A)
  unfolding deref
  set_prev s p q = do (a, n) ← deref s p; ok (put s a (some (record n { prev = q })))

  unfoldable pub insert_back : Store A → LinkedList → ℕ → Result (Store A × LinkedList)
  unfolding set_next set_prev
  insert_back s l node =
      if l.size == 0
      then ok (s, record { head = some node; tail = some node; size = add32 l.size 1 })
      else (do
        check (is_some l.tail)
        s1 ← set_next s l.tail (some node)
        s2 ← set_prev s1 (some node) l.tail
        ok (s2, record l { tail = some node; size = add32 l.size 1 }))

  unfoldable pub insert_front : Store A → LinkedList → ℕ → Result (Store A × LinkedList)
  unfolding set_next set_prev
  insert_front s l node =
      if l.size == 0
      then ok (s, record { head = some node; tail = some node; size = add32 l.size 1 })
      else (do
        s1 ← set_prev s l.head (some node)
        s2 ← set_next s1 (some node) l.head
        ok (s2, record l { head = some node; size = add32 l.size 1 }))

  -- `append_back` and `emplace_back`; the second pair are `append_front` and `emplace_front`.
  unfoldable pub append_back : Store A → LinkedList → A → Result (Store A × LinkedList)
  unfolding insert_back new_node
  append_back s l v = let (node, s') = new_node s v in insert_back s' l node

  unfoldable pub append_front : Store A → LinkedList → A → Result (Store A × LinkedList)
  unfolding insert_front new_node
  append_front s l v = let (node, s') = new_node s v in insert_front s' l node

  -- `i` steps along `next`.
  unfoldable pub walk : Store A → Option ℕ → ℕ → Result (Option ℕ)
  unfolding deref
  walk s p zero = ok p
  walk s p (suc i) = do (a, n) ← deref s p; walk s n.next i

  unfoldable pub at_index : Store A → LinkedList → ℕ → Result (Option ℕ)
  unfolding walk
  at_index s l index = do check (ltb index l.size); walk s l.head index

  unfoldable pub get : Store A → LinkedList → ℕ → Result A
  unfolding at_index
  get s l index = do p ← at_index s l index; (a, n) ← deref s p; ok n.val

  unfoldable pub front : Store A → LinkedList → Result A
  unfolding deref
  front s l = do check (is_some l.head); (a, n) ← deref s l.head; ok n.val

  unfoldable pub back : Store A → LinkedList → Result A
  unfolding deref
  back s l = do check (is_some l.tail); (a, n) ← deref s l.tail; ok n.val

  -- `if (p->prev) p->prev->next = p->next; if (p->next) p->next->prev = p->prev;` for node `n`.
  unfoldable pub unlink : Store A → Node A → Result (Store A)
  unfolding set_next set_prev
  unlink s n = do
    s1 ← (if is_some n.prev then set_next s n.prev n.next else ok s)
    (if is_some n.next then set_prev s1 n.next n.prev else ok s1)

  -- The address of the node taken out is the first result.
  unfoldable pub take_node : Store A → LinkedList → ℕ → Result (ℕ × Store A × LinkedList)
  unfolding at_index unlink same_pointer
  take_node s l index = do
    check (ltb index l.size)
    p ← at_index s l index
    (a, n) ← deref s p
    s' ← unlink s n
    ok (
      a,
      s',
      record {
        head = if same_pointer p l.head then n.next else l.head;
        tail = if same_pointer p l.tail then n.next else l.tail;
        size = sub32 l.size 1;
      },
    )

  unfoldable pub remove : Store A → LinkedList → ℕ → Result (Store A × LinkedList)
  unfolding take_node
  remove s l index = do (a, s', l') ← take_node s l index; ok (put s' a none, l')

  -- The loop of `clear` on fuel: every round empties a cell.
  unfoldable pub clear_from : ℕ → Store A → Option ℕ → Result (Store A)
  clear_from fuel s none = ok s
  clear_from zero s (some p) = timeout
  clear_from (suc fuel) s (some p) = do
    (a, n) ← deref s (some p)
    clear_from fuel (put s a none) n.next

  unfoldable pub clear : Store A → LinkedList → Result (Store A × LinkedList)
  unfolding clear_from
  clear s l = do s' ← clear_from l.size s l.head; ok (s', empty_list)

module _ {A : Type 0} where
  -- The stolen node goes behind the list's last one as it is.
  unfoldable pub take_back :
      Store A → LinkedList → LinkedList → ℕ → Result (Store A × LinkedList × LinkedList)
  unfolding take_node insert_back
  take_back s l other index = do
    (stolen, s', other') ← take_node s other index
    (s'', l') ← insert_back s' l stolen
    ok (s'', l', other')

  -- The loop of `remove_if` from a node on.
  unfoldable pub remove_if_loop :
      ℕ → (A → Bool) → Store A → LinkedList → Option ℕ → Result (Store A × LinkedList)
  unfolding deref unlink
  remove_if_loop fuel f s l none = ok (s, l)
  remove_if_loop zero f s l (some p) = timeout
  remove_if_loop (suc fuel) f s l (some p) = do
    (a, n) ← deref s (some p)
    (s', l') ←
        (if f n.val
          then (do s1 ← unlink s n; ok (put s1 a none, record l { size = sub32 l.size 1 }))
          else ok (s, l))
    remove_if_loop fuel f s' l' n.next

  -- Every round passes a node, so the size is enough fuel.
  unfoldable pub remove_if : Store A → LinkedList → (A → Bool) → Result (Store A × LinkedList)
  unfolding remove_if_loop
  remove_if s l f = remove_if_loop l.size f s l l.head

-- `LoopingIterator`.
pub record LoopingIterator : Type 0 where
  pub this : Option ℕ
  pub start : Option ℕ

abbrev pub looping_iter : LinkedList → LoopingIterator
looping_iter l = record { this = l.head; start = l.head }

module _ {A : Type 0} where
  -- `operator++`.
  unfoldable pub advance : Store A → LoopingIterator → Result LoopingIterator
  unfolding deref
  advance s it = do
    (a, n) ← deref s it.this
    ok (record it { this = if is_some n.next then n.next else it.start })

  -- `operator->`.
  unfoldable pub current : Store A → LoopingIterator → Result A
  unfolding deref
  current s it = do check (is_some it.this); (a, n) ← deref s it.this; ok n.val

  -- A write through `operator->`.
  unfoldable pub assign : Store A → LoopingIterator → A → Result (Store A)
  unfolding deref
  assign s it v = do
    check (is_some it.this)
    (a, n) ← deref s it.this
    ok (put s a (some (record n { val = v })))

  unfoldable pub skip : Store A → LoopingIterator → ℕ → Result LoopingIterator
  unfolding advance
  skip s it zero = ok it
  skip s it (suc count) = do it' ← advance s it; skip s it' count

  -- The loop of `remove_loop`: the node of the iterator and its index.
  unfoldable pub index_loop : ℕ → Store A → Option ℕ → Option ℕ → ℕ → Result (Option ℕ × ℕ)
  unfolding deref same_pointer
  index_loop fuel s none this index = ok (none, index)
  index_loop zero s (some p) this index = timeout
  index_loop (suc fuel) s (some p) this index =
      let rest : Result (Option ℕ × ℕ) = (do
        (a, n) ← deref s (some p)
        index_loop fuel s n.next this (add32 index 1)) in
      if same_pointer (some p) this then ok (some p, index) else rest

  unfoldable pub remove_loop :
      Store A → LinkedList → LoopingIterator → Result (Store A × LinkedList × LoopingIterator)
  unfolding index_loop skip
  remove_loop s l it = do
    check (is_some it.this)
    (node, index) ← index_loop l.size s l.head it.this 0
    check (is_some node)
    (s', l') ← remove s l index
    next ← skip s' (looping_iter l') index
    ok (s', l', next)
