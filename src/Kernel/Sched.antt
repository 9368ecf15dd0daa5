-- ===== src/Kernel/Sched.antt =====
-- kernel/sched.cpp. A process table entry is a node of `processes`; the accessors `regs()` and
-- `syscall_regs()` return copies, so what is read into them is dropped. The constructor's load of
-- /bin/yes gives the first process, which is an argument here. `page_directory` is what
-- `set_memory_mapping` last put into the processor.
pub mod Search
pub mod Ticks
pub mod Syscall
pub mod Boot
mod Tests
use bunos.Prelude.{
  ℕ, zero, suc, ◌+◌, ◌<◌, Bool, true, false, not, ◌&&◌, Option, some, none, Result, ok, timeout,
  ◌>>=◌, ◌>>◌, check, ◌==◌, ltb, leb, if◌then◌else◌, add32,
}
use bunos.Bustd.LinkedList.{
  Store, LinkedList, LoopingIterator, empty_list, looping_iter, append_back, advance, current,
  assign,
}
use bunos.Kernel.Task.{InterruptFrame, Process, read_from_frame, insert_into_frame, start_syscall}

pub record SchedInfo : Type 0 where
  pub run_for_ticks : ℕ
  pub proc : Process

pub record Scheduler : Type 0 where
  pub store : Store SchedInfo
  pub next_pid : ℕ
  pub processes : LinkedList
  pub current_proc : LoopingIterator
  pub page_directory : ℕ

-- The constructor; `load` is the process that the file and the number give.
unfoldable pub create : Store SchedInfo → ℕ → (ℕ → Process) → Result Scheduler
create s page_directory load = do
  (s', l) ← append_back s empty_list (record { run_for_ticks = 0; proc = load 1 })
  ok (record {
    store = s';
    next_pid = 2;
    processes = l;
    current_proc = looping_iter l;
    page_directory = page_directory;
  })

-- Gives the address to start at.
unfoldable pub run : Scheduler → Result (ℕ × Scheduler)
unfolding current
run c = do
  check (not (c.processes.size == 0))
  info ← current c.store c.current_proc
  ok (info.proc.regs.eip, record c { page_directory = info.proc.memory_mapping.mmu_base })

-- The loop of `reschedule` on fuel. Nothing in it writes `count`.
unfoldable pub search :
    ℕ → Store SchedInfo → ℕ → ℕ → ℕ → ℕ → LoopingIterator → Result (ℕ × LoopingIterator)
unfolding advance current
search zero s len current_pid count pid it =
    if ltb count len && not (pid == current_pid) then timeout else ok (pid, it)
search (suc fuel) s len current_pid count pid it =
    let rest : Result (ℕ × LoopingIterator) = (do
      it' ← advance s it
      info ← current s it'
      search fuel s len current_pid count info.proc.pid it') in
    if ltb count len && not (pid == current_pid) then rest else ok (pid, it)

-- What follows the loop. The registers read from the frame go to a copy.
unfoldable pub switch_to :
    ℕ → Scheduler → InterruptFrame → ℕ → ℕ → LoopingIterator → Result (Scheduler × InterruptFrame)
unfolding current read_from_frame
switch_to frame_base c frame current_pid pid it =
    let switch : Result (Scheduler × InterruptFrame) = (do
      old ← current c.store c.current_proc
      saved ← read_from_frame frame_base frame old.proc.regs
      new ← current c.store it
      ok (
        record c { current_proc = it; page_directory = new.proc.memory_mapping.mmu_base },
        insert_into_frame new.proc.regs frame,
      )) in
    if pid == current_pid then ok (c, frame) else switch

unfoldable pub reschedule : ℕ → ℕ → Scheduler → InterruptFrame → Result (Scheduler × InterruptFrame)
unfolding current assign search switch_to
reschedule fuel frame_base c frame = do
  check (not (c.processes.size == 0))
  info ← current c.store c.current_proc
  s ← assign c.store c.current_proc (record info { run_for_ticks = 0 })
  (pid, it) ← search fuel s c.processes.size info.proc.pid 0 0 c.current_proc
  switch_to frame_base (record c { store = s }) frame info.proc.pid pid it

unfoldable pub handle_systick :
    ℕ → ℕ → Scheduler → InterruptFrame → Result (Scheduler × InterruptFrame)
unfolding current assign
handle_systick fuel frame_base c frame = do
  info ← current c.store c.current_proc
  let ticks = add32 info.run_for_ticks 1
  s ← assign c.store c.current_proc (record info { run_for_ticks = ticks })
  let c' = record c { store = s }
  let slice_over = reschedule fuel frame_base c' frame
  (if leb 1024 ticks then slice_over else ok (c', frame))

-- `this` is the address of the current process.
unfoldable pub handle_syscall :
    ℕ → ℕ → ℕ → Scheduler → InterruptFrame → Result (Scheduler × InterruptFrame)
unfolding current assign read_from_frame start_syscall
handle_syscall syscall_enter frame_base this c frame = do
  info ← current c.store c.current_proc
  saved ← read_from_frame frame_base frame info.proc.regs
  p ← start_syscall syscall_enter frame_base this info.proc frame
  s ← assign c.store c.current_proc (record info { proc = p })
  ok (record c { store = s }, insert_into_frame p.syscall_regs frame)
