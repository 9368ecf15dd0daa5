-- ===== src/Kernel/Interrupts/Tests.antt =====
-- Runs on devices that are one byte for each port.
use bunos.Prelude.{ℕ, ◌%◌, ◌≡◌, refl, true, false, none, ok, arith, ◌==◌, if◌then◌else◌}
use bunos.Kernel.Task.{InterruptFrame}
use bunos.Kernel.Interrupts.{Ports, Handler, Interrupts, register_handler, handle_interrupt}
use bunos.Kernel.Interrupts.Masks.{HasMasks}
use bunos.Kernel.Interrupts.Dispatch.{settled, with_handler, handle_interrupt-register_handler}

abbrev bytes : Ports (ℕ → ℕ)
bytes = record {
  in_u8 = λ port s. (s port % 256, s);
  out_u8 = λ port v s q. if q == port then v else s q;
}

abbrev byte_masks : HasMasks bytes
byte_masks = record {
  mask = λ port s. s port % 256;
  is_byte = λ port s. omega arith;
  read = λ port s. refl;
  written = λ port v s h. ground arith;
  others = λ port other v s ne. ground arith;
}

abbrev all_masked : ℕ → ℕ
all_masked port = 0xFF

abbrev no_handlers : Interrupts (ℕ → ℕ)
no_handlers = record { handlers = λ v. none; is_in_isr = false; devices = all_masked }

abbrev takes_all : Handler (ℕ → ℕ)
takes_all frame s = (true, s)

abbrev key_frame : InterruptFrame
key_frame = record {
  ds = 0;
  edi = 0;
  esi = 0;
  ebp = 0;
  dud_esp = 0;
  ebx = 0;
  edx = 0;
  ecx = 0;
  eax = 0;
  int_vector = 0x21;
  err_code = 0;
  eip = 0;
  cs = 8;
  eflags = 0;
  useresp = 0;
  ss = 0;
}

handle_interrupt-register_handler_example :
    (s : ℕ → ℕ) × (register_handler bytes no_handlers 0x21 takes_all
      ≡ ok (with_handler bytes no_handlers 0x21 takes_all s))
    × (handle_interrupt bytes (with_handler bytes no_handlers 0x21 takes_all s) key_frame
        ≡ ok (
          true,
          record (with_handler bytes no_handlers 0x21 takes_all s) {
            is_in_isr = false;
            devices = settled bytes 0x21 true s;
          },
        ))
handle_interrupt-register_handler_example =
    handle_interrupt-register_handler bytes no_handlers 0x21 takes_all key_frame (omega arith)
      (omega arith) ((λ e. omega (arith, e)), (λ e. omega (arith, e))) refl refl
