-- ===== src/Kernel/Task.antt =====
-- kernel/task/x86.cpp and kernel/process.hpp: the registers of a task, its memory mapping, and a
-- process. The frame that an interrupt pushes lies at the address `frame_base`; `syscall_enter` is the
-- address of `x86_syscall_enter`. Panics print and stop.
use bunos.Prelude.{
  ℕ, List, [], ◌∷◌, ◌++◌, Result, ok, ◌>>=◌, ◌>>◌, check, ◌==◌, add32, sub32, Bool, true, false,
}

-- kernel/x86/interrupts.hpp.
pub record InterruptFrame : Type 0 where
  pub ds : ℕ
  pub edi : ℕ
  pub esi : ℕ
  pub ebp : ℕ
  pub dud_esp : ℕ
  pub ebx : ℕ
  pub edx : ℕ
  pub ecx : ℕ
  pub eax : ℕ
  pub int_vector : ℕ
  pub err_code : ℕ
  pub eip : ℕ
  pub cs : ℕ
  pub eflags : ℕ
  pub useresp : ℕ
  pub ss : ℕ

pub record Registers : Type 0 where
  pub edi : ℕ
  pub esi : ℕ
  pub ebp : ℕ
  pub dud_esp : ℕ
  pub ebx : ℕ
  pub edx : ℕ
  pub ecx : ℕ
  pub eax : ℕ
  pub eflags : ℕ
  pub esp : ℕ
  pub eip : ℕ

abbrev pub reset : Registers
reset = record {
  edi = 0;
  esi = 0;
  ebp = 0;
  dud_esp = 0;
  ebx = 0;
  edx = 0;
  ecx = 0;
  eax = 0;
  eflags = 0;
  esp = 0;
  eip = 0;
}

-- `useresp` is the fifteenth word of the frame.
abbrev pub useresp_offset : ℕ
useresp_offset = 56

-- `dud_esp` is kept.
unfoldable pub read_from_frame : ℕ → InterruptFrame → Registers → Result Registers
read_from_frame frame_base f r = do
  check (f.cs == 8)
  ok (record {
    edi = f.edi;
    esi = f.esi;
    ebp = f.ebp;
    dud_esp = r.dud_esp;
    ebx = f.ebx;
    edx = f.edx;
    ecx = f.ecx;
    eax = f.eax;
    eflags = f.eflags;
    esp = add32 frame_base useresp_offset;
    eip = f.eip;
  })

abbrev pub insert_into_frame : Registers → InterruptFrame → InterruptFrame
insert_into_frame r f = record f {
  edi = r.edi;
  esi = r.esi;
  ebp = r.ebp;
  eip = r.eip;
  ebx = r.ebx;
  edx = r.edx;
  ecx = r.ecx;
  eax = r.eax;
  eflags = r.eflags;
}

abbrev pub set_entry : Registers → ℕ → Registers
set_entry r entry = record r { eip = entry }

abbrev pub set_stack : Registers → ℕ → Registers
set_stack r stack = record r { esp = stack }

-- The process is known by its address.
abbrev pub set_syscall_target : Registers → ℕ → Registers
set_syscall_target r proc = record r { ebp = proc }

unfoldable pub setup_syscall_regs :
    ℕ → ℕ → InterruptFrame → Registers → ℕ → ℕ → ℕ → Result Registers
unfolding read_from_frame
setup_syscall_regs syscall_enter frame_base frame regs stack_start stack_size target_process = do
  read ← read_from_frame frame_base frame regs
  ok (
      set_syscall_target
        (set_stack (set_entry reset syscall_enter) (sub32 (add32 stack_start stack_size) 16))
        target_process)

-- The handler of interrupt 0x81: the first process starts with clean registers at `eax`.
abbrev pub enter_scheduler_handler : InterruptFrame → InterruptFrame
enter_scheduler_handler frame = insert_into_frame (set_entry reset frame.eax) frame

pub record MemoryMapping : Type 0 where
  pub mmu_base : ℕ
  pub owned_pages : List ℕ

pub data State : Type 0 where
  running : State
  syscall_trigger : State
  in_syscall : State

abbrev pub is_running : State → Bool
is_running running = true
is_running syscall_trigger = false
is_running in_syscall = false

pub record Process : Type 0 where
  pub state : State
  pub regs : Registers
  pub memory_mapping : MemoryMapping
  pub pid : ℕ
  pub syscall_regs : Registers
  pub kernel_stack : ℕ
  pub kernel_stack_size : ℕ

abbrev pub take_memory_page : Process → ℕ → Process
take_memory_page p page = record p {
  memory_mapping = record p.memory_mapping {
    owned_pages = p.memory_mapping.owned_pages ++ page ∷ [];
  };
}

-- The process stands at the address `this`.
unfoldable pub start_syscall : ℕ → ℕ → ℕ → Process → InterruptFrame → Result Process
unfolding setup_syscall_regs
start_syscall syscall_enter frame_base this p frame = do
  check (is_running p.state)
  r ←
      setup_syscall_regs syscall_enter frame_base frame p.syscall_regs p.kernel_stack
        p.kernel_stack_size this
  ok (record p { state = syscall_trigger; syscall_regs = r })
