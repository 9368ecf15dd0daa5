-- ===== src/Kernel/Sched/Search.antt =====
-- The loop of `reschedule` goes around the row, and ends at the latest where it began.
use bunos.Prelude.{
  ℕ, zero, suc, ◌+◌, ◌≤◌, ◌<◌, ◌≡◌, refl, ap, ◌∙◌, true, false, Option, some, none, List, [], ◌∷◌,
  ◌++◌, Result, ok, arith, ltb, ◌==◌, inl, inr, Bool-cases, length, length-append,
}
use bunos.Bustd.LinkedList.{Node, Store, LinkedList, LoopingIterator, advance, current}
use bunos.Bustd.LinkedList.Chain.{first_or, last_or, Seg, Seg-split, IsList}
use bunos.Bustd.LinkedList.Looping.{advance_next, advance_wrap, current_lem}
use bunos.Kernel.Sched.{SchedInfo, search}

-- The loop ends at a process with the number it looks for.
pub record Finds (run : Result (ℕ × LoopingIterator)) (pid : ℕ) : Type 0 where
  pub it : LoopingIterator
  pub returned : run ≡ ok (pid, it)

pub search_stops :
    (fuel : ℕ) (s : Store SchedInfo) (len current_pid pid : ℕ) (it : LoopingIterator)
    → pid ≡ current_pid
    → search fuel s len current_pid 0 pid it ≡ ok (current_pid, it)
unfolding search
search_stops zero s len current_pid pid it h =
    let e : (pid == current_pid) ≡ true = ground arith in ground (arith, e)
search_stops (suc fuel) s len current_pid pid it h =
    let e : (pid == current_pid) ≡ true = ground arith in ground (arith, e)

-- One round, at a process with another number.
search_round :
    (fuel : ℕ) (s : Store SchedInfo) (len current_pid pid : ℕ) (it it' : LoopingIterator)
    (info : SchedInfo)
    → 0 < len
    → (pid == current_pid) ≡ false
    → advance s it ≡ ok it'
    → current s it' ≡ ok info
    → search (suc fuel) s len current_pid 0 pid it
      ≡ search fuel s len current_pid 0 info.proc.pid it'
unfolding search
search_round fuel s len current_pid pid it it' info long other moved here =
    let e : ltb 0 len ≡ true = ground arith in rw (e, other, moved, here)

module _ (s : Store SchedInfo) (len : ℕ) (long : 0 < len) (start : Option ℕ) (p : ℕ)
    (info : SchedInfo) where
  abbrev Search : ℕ → ℕ → ℕ → Type 0
  Search fuel pid a =
      Finds (search fuel s len info.proc.pid 0 pid (record { this = some a; start = start }))
        info.proc.pid

  stops : (fuel pid a : ℕ) → pid ≡ info.proc.pid → Search fuel pid a
  stops fuel pid a h = record { it = _; returned = search_stops fuel s len info.proc.pid pid _ h }

  -- From one node to another: stop, or go on there.
  round :
      (fuel pid a b : ℕ) (n : Node SchedInfo)
      → advance s (record { this = some a; start = start })
        ≡ ok (record { this = some b; start = start })
      → s.cell b ≡ some n
      → Search fuel n.val.proc.pid b
      → Search (suc fuel) pid a
  round fuel pid a b n moved held later = elim (Bool-cases (pid == info.proc.pid)) [
    | inl e ↦ stops (suc fuel) pid a (ground arith)
    | inr e ↦ record {
      it = later.it;
      returned =
          search_round fuel s len info.proc.pid pid _ _ n.val long e moved
            (current_lem s start b n held)
          ∙ later.returned;
    }
  ]

  -- Before `p`.
  ahead :
      (fuel : ℕ) (back : Option ℕ) (pid a : ℕ) (w : SchedInfo) (zs ys : List (ℕ × SchedInfo))
      → length zs ≤ fuel
      → Seg s.cell back ((a, w) ∷ zs ++ (p, info) ∷ ys) none
      → Search (suc fuel) pid a
  ahead fuel back pid a w [] ys enough (h, (hp, hs)) =
      round fuel pid a p _ (advance_next s start a p _ h refl) hp (stops fuel info.proc.pid p refl)
  ahead zero back pid a w ((b, x) ∷ zs) ys enough h = absurd (omega arith)
  ahead (suc fuel) back pid a w ((b, x) ∷ zs) ys enough (h, hs) =
      round (suc fuel) pid a b _ (advance_next s start a b _ h refl) hs.0
        (ahead fuel (some a) x.proc.pid b x zs ys (omega arith) hs)

  -- Where the row has ended, from its start.
  from_start :
      (fuel : ℕ) (pid a : ℕ) (xs ys : List (ℕ × SchedInfo))
      → length xs ≤ fuel
      → start ≡ first_or (xs ++ (p, info) ∷ ys) none
      → Seg s.cell none (xs ++ (p, info) ∷ ys) none
      → (n : Node SchedInfo) → s.cell a ≡ some n
      → n.next ≡ none
      → Search (suc fuel) pid a
  from_start fuel pid a [] ys enough first (h, hs) n held last =
      round fuel pid a p _
        (advance_wrap s start a n held last
          ∙ ap (λ q. ok (record { this = q; start = start })) first)
        h (stops fuel info.proc.pid p refl)
  from_start zero pid a ((b, x) ∷ xs) ys enough first h n held last = absurd (omega arith)
  from_start (suc fuel) pid a ((b, x) ∷ xs) ys enough first h n held last =
      round (suc fuel) pid a b _
        (advance_wrap s start a n held last
          ∙ ap (λ q. ok (record { this = q; start = start })) first)
        h.0 (ahead fuel none x.proc.pid b x xs ys (omega arith) h)

  -- After `p`.
  around :
      (fuel : ℕ) (back : Option ℕ) (pid a : ℕ) (w : SchedInfo) (zs xs ys : List (ℕ × SchedInfo))
      → length zs + length xs ≤ fuel
      → start ≡ first_or (xs ++ (p, info) ∷ ys) none
      → Seg s.cell none (xs ++ (p, info) ∷ ys) none
      → Seg s.cell back ((a, w) ∷ zs) none
      → Search (suc fuel) pid a
  around fuel back pid a w [] xs ys enough first all (h, hs) =
      from_start fuel pid a xs ys (omega arith) first all _ h refl
  around zero back pid a w ((b, x) ∷ zs) xs ys enough first all h = absurd (omega arith)
  around (suc fuel) back pid a w ((b, x) ∷ zs) xs ys enough first all (h, hs) =
      round (suc fuel) pid a b _ (advance_next s start a b _ h refl) hs.0
        (around fuel (some a) x.proc.pid b x zs xs ys (omega arith) first all hs)

-- In as many rounds as the row is long, the loop that begins at `p` ends with the number of `p`'s
-- process.
pub search_lem :
    (s : Store SchedInfo) (l : LinkedList) (xs : List (ℕ × SchedInfo)) (p : ℕ) (info : SchedInfo)
    (ys : List (ℕ × SchedInfo))
    → IsList s l (xs ++ (p, info) ∷ ys)
    → Finds
        (search l.size s l.size info.proc.pid 0 0 (record { this = some p; start = l.head }))
        info.proc.pid
search_lem s l xs p info ys i =
    let n : l.size ≡ suc (length ys + length xs) =
      omega (arith, i.size_eq, length-append xs ((p, info) ∷ ys)) in
    let (left, right) = Seg-split s.cell none xs ((p, info) ∷ ys) none i.linked in
    rw n (
      around s (suc (length ys + length xs)) (omega arith) l.head p info (length ys + length xs)
        (last_or xs none) 0 p info ys xs ys (omega arith) i.head_eq i.linked right)
