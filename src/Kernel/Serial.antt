-- ===== src/Kernel/Serial.antt =====
-- kernel/x86/tty/serial.cpp: the serial line with its ring buffer. What stands behind the ports is a
-- parameter. The interrupt guards are left out, and so is the wait for the interrupt in `write` and
-- `flush` when interrupts are on: write is modelled in a panic, where it transmits itself.
pub mod Order
mod Tests
use bunos.Prelude.{
  ℕ, zero, suc, ◌-◌, ◌+◌, Bool, true, false, not, ◌||◌, List, [], ◌∷◌, Result, ok, panic, timeout,
  ◌>>=◌, ◌>>◌, check, ltb, leb, ◌==◌, ◌!=◌, if◌then◌else◌, bit_and, take, drop, replicate, length,
}
use bunos.Bustd.RingBuffer.{Ring}
use bunos.Bustd.RingBuffer
use bunos.Kernel.Interrupts.{Ports}

abbrev pub transmit_buffer : ℕ
transmit_buffer = 0x3F8

abbrev pub interrupt_enable : ℕ
interrupt_enable = 0x3F9

abbrev pub interrupt_detect : ℕ
interrupt_detect = 0x3FA

abbrev pub line_control : ℕ
line_control = 0x3FB

abbrev pub modem_control : ℕ
modem_control = 0x3FC

abbrev pub line_status : ℕ
line_status = 0x3FD

abbrev pub fifo_size : ℕ
fifo_size = 16

abbrev pub buffer_size : ℕ
buffer_size = 1024

module _ {S : Type 0} (ports : Ports S) where
  -- With the writes of the constructor, but for the one that turns the interrupts on.
  unfoldable pub init : S → S
  init s0 =
      let s1 = ports.out_u8 line_control 0x00 s0 in
      let s2 = ports.out_u8 interrupt_enable 0x00 s1 in
      let s3 = ports.out_u8 line_control 0x80 s2 in
      let s4 = ports.out_u8 transmit_buffer 0x01 s3 in
      let s5 = ports.out_u8 interrupt_enable 0x00 s4 in
      let s6 = ports.out_u8 interrupt_detect 0x07 s5 in
      let s7 = ports.out_u8 line_control 0x2B s6 in ports.out_u8 modem_control 0x00 s7

  unfoldable pub ready_to_send : S → Bool × S
  ready_to_send s = let (status, s') = ports.in_u8 line_status s in (bit_and status 0x40 != 0, s')

  -- `out_u8_string` at the port of the data.
  unfoldable pub send_bytes : List ℕ → S → S
  send_bytes [] s = s
  send_bytes (b ∷ bs) s = send_bytes bs (ports.out_u8 transmit_buffer b s)

  unfoldable pub transmit : Ring → S → Result (Ring × S)
  unfolding ready_to_send send_bytes
  transmit buffer s =
      let (ready, s') = ready_to_send s in
      let send : Result (Ring × S) = (do
        (to_send, send_buffer, buffer') ←
            RingBuffer.take_upto buffer_size buffer (replicate fifo_size 0) fifo_size
        ok (buffer', send_bytes (take to_send send_buffer) s')) in
      if ready then send else ok (buffer, s')

  -- `while (m_buffer.remaining_space() < remaining) transmit()`.
  unfoldable pub make_room : ℕ → ℕ → Ring → S → Result (Ring × S)
  make_room zero remaining buffer s =
      if ltb (RingBuffer.remaining_space buffer_size buffer) remaining
      then timeout
      else ok (buffer, s)
  make_room (suc fuel) remaining buffer s =
      let round : Result (Ring × S) = (do
        (buffer', s') ← transmit buffer s
        make_room fuel remaining buffer' s') in
      if ltb (RingBuffer.remaining_space buffer_size buffer) remaining
      then round
      else ok (buffer, s)

  -- In a panic.
  unfoldable pub write : ℕ → List ℕ → ℕ → Ring → S → Result (Ring × S)
  write fuel buf len buffer s = do
    (written, buffer') ← RingBuffer.write buffer_size buffer buf len
    let more : Result (Ring × S) = (do
      (buffer'', s') ← make_room fuel (len - written) buffer' s
      (written_again, buffer''') ←
          RingBuffer.write buffer_size buffer'' (drop written buf) (len - written)
      check (written_again + written == len)
      ok (buffer''', s'))
    if ltb written len then more else ok (buffer', s)

  -- Without interrupts: `while (!ready_to_send())`.
  unfoldable pub wait_ready : ℕ → S → Result S
  wait_ready zero s = timeout
  wait_ready (suc fuel) s =
      let (ready, s') = ready_to_send s in
      let again = wait_ready fuel s' in if ready then ok s' else again

  unfoldable pub flush : ℕ → ℕ → Ring → S → Result (Ring × S)
  flush fuel zero buffer s =
      if RingBuffer.is_empty buffer_size buffer then ok (buffer, s) else timeout
  flush fuel (suc k) buffer s =
      let round : Result (Ring × S) = (do
        s' ← wait_ready fuel s
        (buffer', s'') ← transmit buffer s'
        flush fuel k buffer' s'') in
      if RingBuffer.is_empty buffer_size buffer then ok (buffer, s) else round
