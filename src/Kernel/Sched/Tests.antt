-- ===== src/Kernel/Sched/Tests.antt =====
-- Runs of the scheduler on two processes.
use bunos.Prelude.{ℕ, refl, Option, some, none, [], ◌∷◌, arith, ◌==◌, if◌then◌else◌}
use bunos.Bustd.LinkedList.{Node}
use bunos.Kernel.Task.{InterruptFrame, reset, running}
use bunos.Kernel.Sched.{SchedInfo, Scheduler}
use bunos.Kernel.Sched.Ticks.{IsRunning, Counts, ticks, ticks_lem}

abbrev process : ℕ → SchedInfo
process pid = record {
  run_for_ticks = 0;
  proc = record {
    state = running;
    regs = reset;
    memory_mapping = record { mmu_base = 0x1000; owned_pages = [] };
    pid = pid;
    syscall_regs = reset;
    kernel_stack = 0x8000;
    kernel_stack_size = 0x1000;
  };
}

abbrev two_cells : ℕ → Option (Node SchedInfo)
two_cells q =
    if q == 4
    then some (record { prev = none; next = some 7; val = process 1 })
    else if q == 7
    then some (record { prev = some 4; next = none; val = process 2 })
    else none

abbrev two_processes : Scheduler
two_processes = record {
  store = record { cell = two_cells; fresh = 8 };
  next_pid = 3;
  processes = record { head = some 4; tail = some 7; size = 2 };
  current_proc = record { this = some 7; start = some 4 };
  page_directory = 0x1000;
}

two_processes-IsRunning : IsRunning two_processes ((4, process 1) ∷ []) 7 (process 2) []
two_processes-IsRunning = record {
  table = record {
    head_eq = refl;
    tail_eq = refl;
    size_eq = refl;
    linked = (refl, (refl, tt));
    distinct = (((λ e. omega arith), tt), (tt, tt));
    below = (omega arith, (omega arith, tt));
  };
  at_current = refl;
}

abbrev kernel_frame : InterruptFrame
kernel_frame = record {
  ds = 0x10;
  edi = 1;
  esi = 2;
  ebp = 3;
  dud_esp = 0;
  ebx = 4;
  edx = 5;
  ecx = 6;
  eax = 7;
  int_vector = 32;
  err_code = 0;
  eip = 0x100;
  cs = 8;
  eflags = 0x202;
  useresp = 0;
  ss = 0;
}

ticks_lem_example :
    Counts two_processes kernel_frame
      (ticks 1500 0x9000 two_processes kernel_frame)
      ((4, process 1) ∷ [])
      7
      (process 2)
      []
      476
ticks_lem_example =
    ticks_lem 1500 0x9000 two_processes kernel_frame ((4, process 1) ∷ []) 7 (process 2) []
      (omega arith) two_processes-IsRunning
