-- ===== src/Kernel/Sched/Boot.antt =====
-- The scheduler as the constructor leaves it.
use bunos.Prelude.{ℕ, ◌+◌, ◌%◌, ◌≡◌, refl, ap, ◌∙◌, false, some, [], ok, arith, ◌==◌}
use bunos.Bustd.LinkedList.{Store, empty_list, looping_iter, current}
use bunos.Bustd.LinkedList.Chain.{IsList}
use bunos.Bustd.LinkedList.Insert.{append_back_lem}
use bunos.Bustd.LinkedList.Looping.{current_lem, IsList-cell}
use bunos.Kernel.Task.{InterruptFrame, Process}
use bunos.Kernel.Sched.{SchedInfo, Scheduler, create, run}
use bunos.Kernel.Sched.Ticks.{IsRunning, Counts, ticks, ticks_lem}

empty-IsList : (s : Store SchedInfo) → IsList s empty_list []
empty-IsList s = record {
  head_eq = refl;
  tail_eq = refl;
  size_eq = refl;
  linked = tt;
  distinct = tt;
  below = tt;
}

-- The constructor returns a scheduler that runs the first process, which has had no tick.
pub create-IsRunning :
    (s : Store SchedInfo) (page_directory : ℕ) (load : ℕ → Process)
    → (c : Scheduler) × (create s page_directory load ≡ ok c)
      × IsRunning c [] s.fresh (record { run_for_ticks = 0; proc = load 1 }) []
unfolding create
create-IsRunning s page_directory load =
    let info : SchedInfo = record { run_for_ticks = 0; proc = load 1 } in
    let g = append_back_lem s empty_list info [] (omega arith) (empty-IsList s) in
    let c : Scheduler = record {
      store = g.store;
      next_pid = 2;
      processes = g.list;
      current_proc = looping_iter g.list;
      page_directory = page_directory;
    } in
    let at_first : looping_iter g.list ≡ record { this = some s.fresh; start = g.list.head } =
      ap (λ q. record { this = q; start = g.list.head }) g.valid.head_eq in
    (c, rw g.returned, record { table = g.valid; at_current = at_first })

-- `run` starts the current process: it sets its page directory and returns its program counter.
pub run_lem :
    (c : Scheduler) (p : ℕ) (info : SchedInfo)
    → IsRunning c [] p info []
    → run c
      ≡ ok (info.proc.regs.eip, record c { page_directory = info.proc.memory_mapping.mmu_base })
unfolding run
run_lem c p info r =
    let held = IsList-cell [] p info [] r.table in
    let read : current c.store c.current_proc ≡ ok info =
      ap (λ q. current c.store q) r.at_current ∙ current_lem c.store c.processes.head p _ held in
    let some_process : (c.processes.size == 0) ≡ false = ground (arith, r.table.size_eq) in
    rw (some_process, read)

-- From the constructor on, however many ticks there are, the first process runs, in the frame as it
-- was.
pub ticks-create :
    (s : Store SchedInfo) (page_directory : ℕ) (load : ℕ → Process) (n frame_base : ℕ)
    (frame : InterruptFrame)
    → (c : Scheduler) × (create s page_directory load ≡ ok c)
      × Counts c frame
          (ticks n frame_base c frame)
          []
          s.fresh
          (record { run_for_ticks = 0; proc = load 1 })
          []
          (n % 1024)
ticks-create s page_directory load n frame_base frame =
    let (c, created, r) = create-IsRunning s page_directory load in
    let info : SchedInfo = record { run_for_ticks = 0; proc = load 1 } in
    let e : 0 + n ≡ n = omega arith in
    (c, created, rw e at (ticks_lem n frame_base c frame [] s.fresh info [] (omega arith) r))
