-- ===== src/Kernel/Sched/Syscall.antt =====
-- What a system call does to the current process.
use bunos.Prelude.{
  ℕ, ◌≡◌, ◌≢◌, ap, ◌∙◌, false, List, ok, panic, arith, ◌==◌, ◌⊎◌, inl, inr, Bool-cases, add32,
  sub32,
}
use bunos.Bustd.LinkedList.{current}
use bunos.Bustd.LinkedList.Looping.{current_lem, IsList-cell}
use bunos.Kernel.Task.{
  InterruptFrame, Process, syscall_trigger, is_running, reset, read_from_frame, start_syscall,
}
use bunos.Kernel.Sched.{SchedInfo, Scheduler, handle_syscall}
use bunos.Kernel.Sched.Ticks.{IsRunning}

-- The process once its system call has begun: its own registers are as before.
abbrev pub begun : ℕ → ℕ → Process → Process
begun syscall_enter this p = record p {
  state = syscall_trigger;
  syscall_regs = record reset {
    eip = syscall_enter;
    ebp = this;
    esp = sub32 (add32 p.kernel_stack p.kernel_stack_size) 16;
  };
}

-- The frame that enters the system call.
abbrev pub entering : ℕ → ℕ → InterruptFrame → InterruptFrame
entering syscall_enter this f = record f {
  edi = 0;
  esi = 0;
  ebp = this;
  eip = syscall_enter;
  ebx = 0;
  edx = 0;
  ecx = 0;
  eax = 0;
  eflags = 0;
}

-- From another ring, or where an earlier call has begun, it stops at a panic.
pub handle_syscall-panic :
    (syscall_enter frame_base this : ℕ) (c : Scheduler) (frame : InterruptFrame)
    (xs : List (ℕ × SchedInfo)) (p : ℕ) (info : SchedInfo) (ys : List (ℕ × SchedInfo))
    → (frame.cs ≢ 8) ⊎ (is_running info.proc.state ≡ false)
    → IsRunning c xs p info ys
    → handle_syscall syscall_enter frame_base this c frame ≡ panic
unfolding handle_syscall read_from_frame start_syscall
handle_syscall-panic syscall_enter frame_base this c frame xs p info ys wrong r =
    let held = IsList-cell xs p info ys r.table in
    let read : current c.store c.current_proc ≡ ok info =
      ap (λ q. current c.store q) r.at_current ∙ current_lem c.store c.processes.head p _ held in
    elim (Bool-cases (frame.cs == 8)) [
      | inr other ↦ rw (read, other)
      | inl level ↦
          let state : is_running info.proc.state ≡ false = ground arith in rw (read, level, state)
    ]
