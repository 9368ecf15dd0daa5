-- ===== src/Kernel/Serial/Tests.antt =====
-- Three bytes flushed to a line that is busy at first.
use bunos.Prelude.{
  ℕ, zero, suc, ◌≤◌, ◌≡◌, ◌≢◌, refl, sym, ◌∙◌, ◌>>=◌, Bool, true, false, length, append-nil,
  append_assoc, List, [], ◌∷◌, ◌++◌, ok, ◌==◌, if◌then◌else◌, arith, replicate,
}
use bunos.Bustd.RingBuffer.{Ring}
use bunos.Bustd.RingBuffer.Contents.{IsValid, contents}
use bunos.Kernel.Interrupts.{Ports}
use bunos.Kernel.Serial.{transmit_buffer, buffer_size, flush}
use bunos.Kernel.Serial.Order.{
  IsLine, IsReady, ReadyWithin, at_once, soon, written, transmit_times, flush_lem,
}

-- The bytes sent, whether the transmitter is busy at the next poll, and the room in the FIFO,
-- behind which a byte is lost.
record Uart : Type 0 where
  out : List ℕ
  busy : Bool
  room : ℕ

abbrev status_of : Uart → Bool → ℕ × Uart
status_of u true = (0x20, record u { busy = false })
status_of u false = (0x60, record u { room = 16 })

abbrev put_byte : ℕ → Uart → ℕ → Uart
put_byte b u zero = u
put_byte b u (suc room) = record { out = u.out ++ b ∷ []; busy = true; room = room }

abbrev uart : Ports Uart
uart = record {
  in_u8 = λ port u. status_of u u.busy;
  out_u8 = λ port b u. if port == transmit_buffer then put_byte b u u.room else u;
}

empty_bit : ◌≢◌ {A = ℕ} 64 0
empty_bit = omega arith

same_out : (u : Uart) (b : Bool) → (status_of u b).1.out ≡ u.out
same_out u true = refl
same_out u false = refl

gets-ReadyWithin :
    (out : List ℕ) (b : Bool) (room : ℕ)
    → ReadyWithin uart 2 (record { out = out; busy = b; room = room })
gets-ReadyWithin out true room = soon (at_once empty_bit)
gets-ReadyWithin out false room = at_once empty_bit

stays-IsReady :
    (out : List ℕ) (b : Bool) (room : ℕ)
    → IsReady uart (record { out = out; busy = b; room = room })
    → IsReady uart (status_of (record { out = out; busy = b; room = room }) b).1
stays-IsReady out true room ready = empty_bit
stays-IsReady out false room ready = empty_bit

written_out :
    (bs out : List ℕ) (b : Bool) (room : ℕ)
    → length bs ≤ room
    → (written uart bs (record { out = out; busy = b; room = room })).out ≡ out ++ bs
written_out [] out b room fits = sym (append-nil out)
written_out (c ∷ bs) out b zero fits = absurd (omega arith)
written_out (c ∷ bs) out b (suc room) fits =
    written_out bs (out ++ c ∷ []) true room (omega arith) ∙ append_assoc out (c ∷ []) bs

sends_all :
    (out : List ℕ) (b : Bool) (room : ℕ) (bs : List ℕ)
    → IsReady uart (record { out = out; busy = b; room = room })
    → length bs ≤ 16
    → (written uart bs (status_of (record { out = out; busy = b; room = room }) b).1).out
      ≡ out ++ bs
sends_all out true room bs ready fits = absurd (ready refl)
sends_all out false room bs ready fits = written_out bs out false 16 fits

uart-IsLine : IsLine uart (λ u. u.out) 2
uart-IsLine = record {
  silent = λ u. same_out u u.busy;
  comes = λ u. gets-ReadyWithin u.out u.busy u.room;
  stays = λ u. stays-IsReady u.out u.busy u.room;
  sends = λ u. sends_all u.out u.busy u.room;
}

-- The line has sent a byte and is busy.
abbrev busy_line : Uart
busy_line = record { out = 9 ∷ []; busy = true; room = 15 }

abbrev three : Ring
three = record { start = 0; size = 3; buf = 1 ∷ 2 ∷ 3 ∷ replicate 1021 0 }

three-IsValid : IsValid buffer_size three
three-IsValid = record {
  storage = refl;
  small = omega arith;
  start_in = omega arith;
  size_in = omega arith;
}

-- One transmission, which finds the line busy, and then the flush.
flush_lem_example :
    (r' : Ring) × (u' : Uart) × ((transmit_times uart 1 three busy_line >>= λ t.
    flush uart 2 1 t.0 t.1)
      ≡ ok (r', u'))
    × (contents buffer_size r' ≡ [])
    × (u'.out ≡ 9 ∷ 1 ∷ 2 ∷ 3 ∷ [])
unfolding contents
flush_lem_example =
    flush_lem uart (λ u. u.out) uart-IsLine 1 2 1 three busy_line (omega arith) three-IsValid
      (omega arith)
