-- ===== src/Bustd/LinkedList/Tests.antt =====
-- Runs on a list of three numbers at the addresses 5, 2 and 9.
use bunos.Prelude.{
  ℕ, ◌≡◌, refl, Option, some, none, [], ◌∷◌, ok, fault, panic, ◌>>=◌, arith, ◌==◌, if◌then◌else◌,
}
use bunos.Bustd.LinkedList.{
  Node, Store, LinkedList, empty_list, take_back, take_node, at_index, walk, deref, unlink,
  set_next, set_prev, same_pointer, insert_back, remove_if, remove_if_loop, front, remove_loop,
  index_loop, looping_iter, current, skip, advance, append_back, remove,
}
use bunos.Bustd.LinkedList.Chain.{IsList}
use bunos.Bustd.LinkedList.Insert.{Gives, append_back_lem}
use bunos.Bustd.LinkedList.Take.{Takes, take_node_lem, remove-last}

abbrev three_cells : ℕ → Option (Node ℕ)
three_cells q =
    if q == 5
    then some (record { prev = none; next = some 2; val = 10 })
    else if q == 2
    then some (record { prev = some 5; next = some 9; val = 20 })
    else if q == 9
    then some (record { prev = some 2; next = none; val = 30 })
    else none

abbrev heap : Store ℕ
heap = record { cell = three_cells; fresh = 12 }

abbrev three : LinkedList
three = record { head = some 5; tail = some 9; size = 3 }

three-IsList : IsList heap three ((5, 10) ∷ (2, 20) ∷ (9, 30) ∷ [])
three-IsList = record {
  head_eq = refl;
  tail_eq = refl;
  size_eq = refl;
  linked = (refl, (refl, (refl, tt)));
  distinct = (((λ e. omega arith), ((λ e. omega arith), tt)), (((λ e. omega arith), tt), (tt, tt)));
  below = (omega arith, (omega arith, (omega arith, tt)));
}

append_back_lem_example :
    Gives (append_back heap three 40) ((5, 10) ∷ (2, 20) ∷ (9, 30) ∷ (12, 40) ∷ [])
append_back_lem_example =
    append_back_lem heap three 40 ((5, 10) ∷ (2, 20) ∷ (9, 30) ∷ []) (omega arith) three-IsList

take_node_lem_example : Takes heap (take_node heap three 1) 2 ((5, 10) ∷ (9, 30) ∷ [])
take_node_lem_example =
    take_node_lem heap three ((5, 10) ∷ []) 2 20 ((9, 30) ∷ []) (omega arith) (λ e. absurd (cc e))
      three-IsList

remove-last_example :
    (s' : Store ℕ) × (l' : LinkedList) × (remove heap three 2 ≡ ok (s', l'))
    × (l'.tail ≡ none)
    × (append_back s' l' 40 ≡ panic)
remove-last_example = remove-last heap three 5 10 ((2, 20) ∷ []) 9 30 40 (omega arith) three-IsList

-- The stolen node still leads on into the list it was taken from.
take_back_next :
    (do (s, l, other) ← take_back heap empty_list three 0; (a, n) ← deref s l.tail; ok n.next)
    ≡ ok (some 2)
unfolding take_back take_node at_index walk deref unlink set_next set_prev same_pointer insert_back
take_back_next = refl

-- The first node removed by `remove_if` stays the head, and is no longer there.
remove_if_head : (do (s, l) ← remove_if heap three (λ v. v == 10); front s l) ≡ fault
unfolding remove_if remove_if_loop deref unlink set_next set_prev front
remove_if_head = refl

-- `remove_loop` at the first node goes on at the second one.
remove_loop_first :
    (do (s, l, it) ← remove_loop heap three (looping_iter three); current s it) ≡ ok 20
unfolding remove_loop index_loop remove take_node at_index walk deref unlink set_next set_prev
    same_pointer skip current advance
remove_loop_first = refl
