-- ===== src/Kernel/Interrupts/Dispatch.antt =====
-- From a registered handler to its call.
use bunos.Prelude.{
  ℕ, ◌-◌, ◌^◌, ◌<◌, ◌≤◌, ◌≡◌, ◌≢◌, ap, Bool, true, false, some, none, ok, arith, ◌&&◌, ◌||◌, ltb,
  leb, ◌==◌, if◌then◌else◌, inl, inr, Bool-cases, u8, sub32, bit_or,
}
use bunos.Kernel.Task.{InterruptFrame}
use bunos.Kernel.Interrupts.{
  Ports, Handler, Interrupts, master_csr, slave_csr, slave_imr, unmask_master, unmask_irq,
  acknowledge, register_handler, run_handler, handle_interrupt,
}

module _ {S : Type 0} (ports : Ports S) where
  unmask_irq_returns : (irq : ℕ) (s : S) → irq < 16 → (s' : S) × (unmask_irq ports irq s ≡ ok s')
  unfolding unmask_irq
  unmask_irq_returns irq s below =
      let inside : ltb irq 16 ≡ true = ground arith in
      let master = unmask_master ports irq s in
      let read = ports.in_u8 slave_imr (unmask_master ports 2 s) in
      let slave = ports.out_u8 slave_imr (bit_or read.0 (0xFF - 2 ^ (irq - 8))) read.1 in
      elim (Bool-cases (leb 8 irq)) [
        | inl e ↦ (slave, rw (inside, e))
        | inr e ↦ (master, rw (inside, e))
      ]

  -- The devices once a handler of an interrupt has returned: what came through the controllers is
  -- acknowledged at the master, and at the slave where it came from there.
  abbrev pub settled : ℕ → Bool → S → S
  settled vector handled s =
      if handled && ltb vector 0x30
      then ports.out_u8 master_csr 0x20
          (if leb 0x28 vector then ports.out_u8 slave_csr 0x20 s else s)
      else s

  run_handler_lem :
      (t : Interrupts S) (handler : Handler S) (frame : InterruptFrame)
      → 32 ≤ frame.int_vector
      → run_handler ports t handler frame
        ≡ ok (
          (handler frame t.devices).0,
          record t {
            is_in_isr = false;
            devices =
                settled frame.int_vector (handler frame t.devices).0 (handler frame t.devices).1;
          },
        )
  unfolding run_handler acknowledge
  run_handler_lem t handler frame usable =
      let handled = (handler frame t.devices).0 in
      elim (Bool-cases (handled && ltb frame.int_vector 0x30)) [
        | inr none_due ↦ rw none_due
        | inl due ↦
            let low : frame.int_vector < 0x30 = ground (arith, due) in
            let irq : u8 (sub32 frame.int_vector 0x20) ≡ frame.int_vector - 0x20 = omega arith in
            let inside : ltb (frame.int_vector - 0x20) 16 ≡ true = ground arith in
            let slave : leb 8 (frame.int_vector - 0x20) ≡ leb 0x28 frame.int_vector =
              ground arith in
            rw (due, irq, inside, slave)
      ]

  -- The table with a handler put in.
  abbrev pub with_handler : Interrupts S → ℕ → Handler S → S → Interrupts S
  with_handler t vector handler devices' = record t {
    handlers = λ v. if v == vector then some handler else t.handlers v;
    devices = devices';
  }

  register_handler_lem :
      (t : Interrupts S) (vector : ℕ) (handler : Handler S)
      → 32 ≤ vector
      → vector < 256
      → t.handlers vector ≡ none
      → (s : S) × (register_handler ports t vector handler ≡ ok (with_handler t vector handler s))
  unfolding register_handler
  register_handler_lem t vector handler usable inside unused =
      let in_reach : leb 32 vector ≡ true = ground arith in
      let in_table : ltb vector 256 ≡ true = ground arith in
      elim (Bool-cases (ltb vector 0x30)) [
        | inr e ↦ (t.devices, rw (in_reach, in_table, unused, e))
        | inl e ↦
            let (s', done) = unmask_irq_returns (vector - 32) t.devices (ground (arith, e)) in
            (s', rw (in_reach, in_table, unused, e, done))
      ]

  -- A vector of the table that is not reserved, has no handler and is not one of the two that can
  -- be spurious takes a handler. An interrupt with it then calls that handler, acknowledges it if
  -- the handler took it and it came through the controllers, returns what the handler says, and is
  -- over.
  pub handle_interrupt-register_handler :
      (t : Interrupts S) (vector : ℕ) (handler : Handler S) (frame : InterruptFrame)
      → 32 ≤ vector
      → vector < 256
      → (vector ≢ 0x27) × (vector ≢ 0x2F)
      → t.handlers vector ≡ none
      → frame.int_vector ≡ vector
      → (s : S) × (register_handler ports t vector handler ≡ ok (with_handler t vector handler s))
        × (handle_interrupt ports (with_handler t vector handler s) frame
            ≡ ok (
              (handler frame s).0,
              record (with_handler t vector handler s) {
                is_in_isr = false;
                devices = settled vector (handler frame s).0 (handler frame s).1;
              },
            ))
  unfolding handle_interrupt
  handle_interrupt-register_handler t vector handler frame usable inside (not_7, not_15) unused
        same =
      let (s, registered) = register_handler_lem t vector handler usable inside unused in
      let spurious : (frame.int_vector == 0x27 || frame.int_vector == 0x2F) ≡ false =
        ground arith in
      let in_table : leb 256 frame.int_vector ≡ false = ground arith in
      let there : (frame.int_vector == vector) ≡ true = ground arith in
      let run =
        run_handler_lem (record (with_handler t vector handler s) { is_in_isr = true }) handler
          frame (omega arith) in
      (
        s,
        registered,
        rw (spurious, in_table, there, run)
            (ap
              (λ v. ok (
                (handler frame s).0,
                record (with_handler t vector handler s) {
                  is_in_isr = false;
                  devices = settled v (handler frame s).0 (handler frame s).1;
                },
              ))
              same),
      )
