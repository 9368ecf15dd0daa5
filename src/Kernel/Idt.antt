-- ===== src/Kernel/Idt.antt =====
-- kernel/x86/interrupts.cpp: the gates of the interrupt descriptor table. The handlers are the
-- addresses that assembly defines, in the order of the table; loading the table is assembly.
use bunos.Prelude.{
  ℕ, ◌+◌, ◌*◌, ◌/◌, ◌%◌, ◌^◌, ◌<◌, ◌≡◌, refl, List, [], ◌∷◌, ◌++◌, arith, bit_or, replicate,
  overwrite, get_or, get_elem?, some, zero, suc,
}

abbrev pub interrupt_gate : ℕ
interrupt_gate = 0xE

-- The eight bytes that `write_gate` stores.
unfoldable pub write_gate : ℕ → ℕ → List ℕ
write_gate offset type =
    offset % 256
    ∷ offset / 2 ^ 8 % 256
    ∷ 0x08
    ∷ 0x00
    ∷ 0x00
    ∷ bit_or 0x80 type
    ∷ offset / 2 ^ 16 % 256
    ∷ offset / 2 ^ 24 % 256
    ∷ []

-- `setup_interrupt_handlers`: one gate after the other.
unfoldable pub gates : List ℕ → List ℕ
unfolding write_gate
gates [] = []
gates (handler ∷ handlers) = write_gate handler interrupt_gate ++ gates handlers

-- The table after `initialize_interrupts`.
unfoldable pub initialize_interrupts : List ℕ → List ℕ
unfolding gates
initialize_interrupts handlers = overwrite (replicate (256 * 8) 0) 0 (gates handlers)

-- The address that the processor takes from the gate of vector `i`.
abbrev pub gate_offset : List ℕ → ℕ → ℕ
gate_offset table i =
    get_or table (i * 8) 0
    + get_or table (i * 8 + 1) 0 * 2 ^ 8
    + get_or table (i * 8 + 6) 0 * 2 ^ 16
    + get_or table (i * 8 + 7) 0 * 2 ^ 24

-- The gate of a handler leads to it.
pub gate_offset-write_gate :
    (handler type : ℕ) → handler < 2 ^ 32 → gate_offset (write_gate handler type) 0 ≡ handler
unfolding write_gate
gate_offset-write_gate handler type h = omega arith

behind_gate :
    (g : ℕ) (rest : List ℕ) (j k : ℕ)
    → j ≡ suc (suc (suc (suc (suc (suc (suc (suc k)))))))
    → get_or (write_gate g interrupt_gate ++ rest) j 0 ≡ get_or rest k 0
unfolding write_gate
behind_gate g rest j k e = rw e refl

-- In the table that the handlers fill, the gate of every vector leads to its handler.
pub gate_offset-gates :
    (handlers : List ℕ) (i handler : ℕ)
    → get_elem? handlers i ≡ some handler
    → handler < 2 ^ 32
    → gate_offset (gates handlers) i ≡ handler
unfolding gates
gate_offset-gates [] i handler h small = cc
gate_offset-gates (g ∷ handlers) zero handler h small =
    let e : g ≡ handler = cc in rw e (gate_offset-write_gate handler interrupt_gate small)
gate_offset-gates (g ∷ handlers) (suc i) handler h small =
    let table = gates handlers in
    let e0 = behind_gate g table (suc i * 8) (i * 8) (omega arith) in
    let e1 = behind_gate g table (suc i * 8 + 1) (i * 8 + 1) (omega arith) in
    let e6 = behind_gate g table (suc i * 8 + 6) (i * 8 + 6) (omega arith) in
    let e7 = behind_gate g table (suc i * 8 + 7) (i * 8 + 7) (omega arith) in
    let rest = gate_offset-gates handlers i handler h small in rw (e0, e1, e6, e7) rest
