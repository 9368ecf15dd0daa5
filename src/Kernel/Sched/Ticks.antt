-- ===== src/Kernel/Sched/Ticks.antt =====
-- What the clock does to the scheduler.
use bunos.Prelude.{
  ℕ, zero, suc, ◌+◌, ◌%◌, ◌<◌, ◌≡◌, refl, ap, ◌∙◌, true, false, some, none, List, ◌∷◌, ◌++◌, Result,
  ok, ◌>>=◌, arith, leb, ◌==◌, inl, inr, Bool-cases, length-append, add32,
}
use bunos.Bustd.LinkedList.{Store, LoopingIterator, put, current, assign}
use bunos.Bustd.LinkedList.Chain.{first_or, last_or, IsList}
use bunos.Bustd.LinkedList.Looping.{current_lem, assign_lem, IsList-cell, IsList-value}
use bunos.Kernel.Task.{InterruptFrame}
use bunos.Kernel.Sched.{SchedInfo, Scheduler, switch_to, reschedule, handle_systick}
use bunos.Kernel.Sched.Search.{search_lem}

-- The process table is the row with `info` at `p`, and the process there is the current one.
pub record IsRunning (c : Scheduler) (xs : List (ℕ × SchedInfo)) (p : ℕ) (info : SchedInfo)
    (ys : List (ℕ × SchedInfo)) : Type 0 where
  pub table : IsList c.store c.processes (xs ++ (p, info) ∷ ys)
  pub at_current : c.current_proc ≡ record { this = some p; start = c.processes.head }

-- A run that gives back the frame and the scheduler as they were, but for the counter of the current
-- process.
pub record Counts (c : Scheduler) (frame : InterruptFrame)
    (run : Result (Scheduler × InterruptFrame)) (xs : List (ℕ × SchedInfo)) (p : ℕ)
    (info : SchedInfo) (ys : List (ℕ × SchedInfo)) (ticks : ℕ) : Type 0 where
  pub store : Store SchedInfo
  pub returned : run ≡ ok (record c { store = store }, frame)
  pub still_running :
      IsRunning (record c { store = store }) xs p (record info { run_for_ticks = ticks }) ys

-- The row with another counter.
recount :
    (c : Scheduler) (xs : List (ℕ × SchedInfo)) (p : ℕ) (info : SchedInfo)
    (ys : List (ℕ × SchedInfo)) (info' : SchedInfo)
    → IsRunning c xs p info ys
    → IsRunning
        (record c {
          store =
              put c.store p
                (some (record { prev = last_or xs none; next = first_or ys none; val = info' }));
        })
        xs
        p
        info'
        ys
recount c xs p info ys info' r = record {
  table = IsList-value c.store c.processes xs p info info' ys r.table;
  at_current = r.at_current;
}

nonempty :
    (c : Scheduler) (xs : List (ℕ × SchedInfo)) (p : ℕ) (info : SchedInfo)
    (ys : List (ℕ × SchedInfo))
    → IsRunning c xs p info ys
    → (c.processes.size == 0) ≡ false
nonempty c xs p info ys r =
    let n = length-append xs ((p, info) ∷ ys) in ground (arith, r.table.size_eq, n)

switch_to_lem :
    (frame_base : ℕ) (c : Scheduler) (frame : InterruptFrame) (pid : ℕ) (it : LoopingIterator)
    → switch_to frame_base c frame pid pid it ≡ ok (c, frame)
unfolding switch_to
switch_to_lem frame_base c frame pid it = let e : (pid == pid) ≡ true = ground arith in rw e

-- With the table's size as fuel, `reschedule` returns, its loop does not run out, and it sets the
-- counter of the current process to zero; it goes on with the same process, frame and page directory.
pub reschedule_lem :
    (frame_base : ℕ) (c : Scheduler) (frame : InterruptFrame) (xs : List (ℕ × SchedInfo)) (p : ℕ)
    (info : SchedInfo) (ys : List (ℕ × SchedInfo))
    → IsRunning c xs p info ys
    → Counts c frame (reschedule c.processes.size frame_base c frame) xs p info ys 0
unfolding reschedule
reschedule_lem frame_base c frame xs p info ys r =
    let held = IsList-cell xs p info ys r.table in
    let start = c.processes.head in
    let info' : SchedInfo = record info { run_for_ticks = 0 } in
    let r' = recount c xs p info ys info' r in
    let s' : Store SchedInfo =
      put c.store p
        (some (record { prev = last_or xs none; next = first_or ys none; val = info' })) in
    let found = search_lem s' c.processes xs p info' ys r'.table in
    record {
      store = s';
      returned = rw (
        nonempty c xs p info ys r,
        r.at_current,
        current_lem c.store start p _ held,
        assign_lem c.store start p _ info' held,
        found.returned,
        switch_to_lem frame_base
            (record c { store = s'; current_proc = record { this = some p; start = start } }) frame
            info.proc.pid found.it,
      );
      still_running = r';
    }

-- One tick, with what is left of a slice of 1024.
systick_lem :
    (frame_base : ℕ) (c : Scheduler) (frame : InterruptFrame) (xs : List (ℕ × SchedInfo)) (p : ℕ)
    (info : SchedInfo) (ys : List (ℕ × SchedInfo))
    → info.run_for_ticks < 1024
    → IsRunning c xs p info ys
    → Counts c frame
        (handle_systick c.processes.size frame_base c frame)
        xs
        p
        info
        ys
        ((info.run_for_ticks + 1) % 1024)
unfolding handle_systick
systick_lem frame_base c frame xs p info ys within r =
    let held = IsList-cell xs p info ys r.table in
    let start = c.processes.head in
    let t = info.run_for_ticks in
    let whole : add32 t 1 ≡ t + 1 = omega arith in
    let info' : SchedInfo = record info { run_for_ticks = t + 1 } in
    let r' = recount c xs p info ys info' r in
    let s' : Store SchedInfo =
      put c.store p
        (some (record { prev = last_or xs none; next = first_or ys none; val = info' })) in
    let c' : Scheduler = record c { store = s' } in
    let read : current c.store c.current_proc ≡ ok info =
      ap (λ q. current c.store q) r.at_current ∙ current_lem c.store start p _ held in
    let written : assign c.store c.current_proc info' ≡ ok s' =
      ap (λ q. assign c.store q info') r.at_current ∙ assign_lem c.store start p _ info' held in
    elim (Bool-cases (leb 1024 (t + 1))) [
      | inl over ↦
          let again = reschedule_lem frame_base c' frame xs p info' ys r' in
          let zero_again : (t + 1) % 1024 ≡ 0 = ground arith in
          record {
            store = again.store;
            returned = rw (read, whole, written, over, again.returned);
            still_running = rw zero_again again.still_running;
          }
      | inr left ↦
          let same : (t + 1) % 1024 ≡ t + 1 = ground arith in
          record {
            store = s';
            returned = rw (read, whole, written, left);
            still_running = rw same r';
          }
    ]

-- `n` ticks, one after the other.
unfoldable pub ticks : ℕ → ℕ → Scheduler → InterruptFrame → Result (Scheduler × InterruptFrame)
unfolding handle_systick
ticks zero frame_base c frame = ok (c, frame)
ticks (suc n) frame_base c frame = do
  (c', frame') ← handle_systick c.processes.size frame_base c frame
  ticks n frame_base c' frame'

-- However many ticks there are, every one of them returns, none changes the process that runs, the
-- frame or the page directory, and the counter of the current process goes around 1024.
pub ticks_lem :
    (n frame_base : ℕ) (c : Scheduler) (frame : InterruptFrame) (xs : List (ℕ × SchedInfo)) (p : ℕ)
    (info : SchedInfo) (ys : List (ℕ × SchedInfo))
    → info.run_for_ticks < 1024
    → IsRunning c xs p info ys
    → Counts c frame (ticks n frame_base c frame) xs p info ys ((info.run_for_ticks + n) % 1024)
unfolding ticks
ticks_lem zero frame_base c frame xs p info ys within r =
    let same : (info.run_for_ticks + 0) % 1024 ≡ info.run_for_ticks = omega arith in
    record { store = c.store; returned = refl; still_running = rw same r }
ticks_lem (suc n) frame_base c frame xs p info ys within r =
    let t = info.run_for_ticks in
    let one = systick_lem frame_base c frame xs p info ys within r in
    let rest =
      ticks_lem n frame_base (record c { store = one.store }) frame xs p
        (record info { run_for_ticks = (t + 1) % 1024 }) ys (omega arith) one.still_running in
    let same : (t + suc n) % 1024 ≡ ((t + 1) % 1024 + n) % 1024 = omega arith in
    record {
      store = rest.store;
      returned = rw (one.returned, rest.returned);
      still_running = rw same rest.still_running;
    }
