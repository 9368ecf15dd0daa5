-- ===== src/Kernel/Interrupts.antt =====
-- kernel/x86/pic.cpp, the pair of interrupt controllers, and kernel/interrupts.cpp, the table of
-- handlers. The controllers stand behind ports, whose reads and writes are the interface Ports; the
-- messages are left out.
pub mod Masks
pub mod Dispatch
mod Tests
use bunos.Prelude.{
  ℕ, ◌+◌, ◌-◌, ◌*◌, ◌/◌, ◌%◌, ◌^◌, Bool, true, false, Option, some, none, Result, ok, fault, ◌>>=◌,
  ◌>>◌, check, ◌||◌, ◌&&◌, ltb, leb, ◌==◌, ◌!=◌, if◌then◌else◌, bit_and, bit_or, u8, sub32,
}
use bunos.Kernel.Task.{InterruptFrame}

-- `in_u8` and `out_u8` of kernel/x86/io.cpp, on the state of the devices.
pub record Ports (S : Type 0) : Type 0 where
  pub in_u8 : ℕ → S → ℕ × S
  pub out_u8 : ℕ → ℕ → S → S

abbrev pub master_csr : ℕ
master_csr = 0x20

abbrev pub master_imr : ℕ
master_imr = 0x21

abbrev pub slave_csr : ℕ
slave_csr = 0xA0

abbrev pub slave_imr : ℕ
slave_imr = 0xA1

-- A handler with its effect on the devices and on what else it keeps there.
abbrev pub Handler : Type 0 → Type 0
Handler S = InterruptFrame → S → Bool × S

module _ {S : Type 0} (ports : Ports S) where
  unfoldable pub disable_all_interrupts : S → S
  disable_all_interrupts s = ports.out_u8 slave_imr 0xFF (ports.out_u8 master_imr 0xFF s)

  unfoldable pub initialize : S → S
  unfolding disable_all_interrupts
  initialize s =
      let s = ports.out_u8 master_csr 0x11 s in
      let s = ports.out_u8 slave_csr 0x11 s in
      let s = ports.out_u8 master_imr 0x20 s in
      let s = ports.out_u8 slave_imr 0x28 s in
      let s = ports.out_u8 master_imr 0x04 s in
      let s = ports.out_u8 slave_imr 0x02 s in
      let s = ports.out_u8 master_imr 0x01 s in
      let s = ports.out_u8 slave_imr 0x01 s in disable_all_interrupts s

  -- The branch of the master, for a line below 8.
  unfoldable pub unmask_master : ℕ → S → S
  unmask_master irq s =
      let (irqs, s') = ports.in_u8 master_imr s in
      ports.out_u8 master_imr (bit_and irqs (0xFF - 2 ^ irq)) s'

  unfoldable pub unmask_irq : ℕ → S → Result S
  unfolding unmask_master
  unmask_irq irq s = do
    check (ltb irq 16)
    if leb 8 irq
        then ok (
            let (irqs, s') = ports.in_u8 slave_imr (unmask_master 2 s) in
            ports.out_u8 slave_imr (bit_or irqs (0xFF - 2 ^ (irq - 8))) s')
        else ok (unmask_master irq s)

  unfoldable pub acknowledge : ℕ → S → Result S
  acknowledge irq s = do
    check (ltb irq 16)
    ok (ports.out_u8 master_csr 0x20 (if leb 8 irq then ports.out_u8 slave_csr 0x20 s else s))

  unfoldable pub check_spurious : ℕ → S → Result (Bool × S)
  check_spurious irq s = do
    check (irq == 7 || irq == 0xF)
    ok (
        if irq == 7
        then (let (status, s') = ports.in_u8 master_csr (ports.out_u8 master_csr 0x0B s) in
            (bit_and status 0x80 != 0, s'))
        else (let (status, s') = ports.in_u8 slave_csr (ports.out_u8 slave_csr 0x0B s) in
            if bit_and status 0x80 != 0
            then (true, ports.out_u8 master_csr 0x20 s')
            else (false, s')))

  unfoldable pub mask_non_printing_irqs : S → Result S
  unfolding disable_all_interrupts unmask_irq
  mask_non_printing_irqs s = do s1 ← unmask_irq 0 (disable_all_interrupts s); unmask_irq 4 s1

-- `s_handlers`, `is_in_isr` and the devices.
pub record Interrupts (S : Type 0) : Type 0 where
  pub handlers : ℕ → Option (Handler S)
  pub is_in_isr : Bool
  pub devices : S

module _ {S : Type 0} (ports : Ports S) where
  -- The table has 256 places.
  unfoldable pub register_handler : Interrupts S → ℕ → Handler S → Result (Interrupts S)
  unfolding unmask_irq
  register_handler t vector handler = do
    check (leb 32 vector)
    (if ltb vector 256 then ok tt else fault)
    elim (t.handlers vector) [ some other ↦ check false | none ↦ check true ]
    let handlers' : ℕ → Option (Handler S) = λ v. if v == vector then some handler else t.handlers v
    devices' ← (if ltb vector 0x30 then unmask_irq ports (vector - 32) t.devices else ok t.devices)
    ok (record t { handlers = handlers'; devices = devices' })

  -- A handler's call with the acknowledgement.
  unfoldable pub run_handler :
      Interrupts S → Handler S → InterruptFrame → Result (Bool × Interrupts S)
  unfolding acknowledge
  run_handler t handler frame = do
    let (handled, devices') = handler frame t.devices
    devices'' ←
        (if handled && ltb frame.int_vector 0x30
          then acknowledge ports (u8 (sub32 frame.int_vector 0x20)) devices'
          else ok devices')
    ok (handled, record t { is_in_isr = false; devices = devices'' })

  unfoldable pub handle_interrupt : Interrupts S → InterruptFrame → Result (Bool × Interrupts S)
  unfolding run_handler
  handle_interrupt t frame =
      if frame.int_vector == 0x27 || frame.int_vector == 0x2F
      then ok (true, t)
      else if leb 256 frame.int_vector
      then fault
      else elim (t.handlers frame.int_vector) [
        | none ↦ ok (false, record t { is_in_isr = false })
        | some handler ↦ run_handler (record t { is_in_isr = true }) handler frame
      ]
