-- ===== src/Kernel/Keyboard/Handshake.antt =====
-- The driver's first commands, until the keyboard has acknowledged them.
use bunos.Prelude.{ℕ, zero, suc, ◌≡◌, refl, true, List, [], ◌∷◌, ◌++◌, ok, replicate, append_assoc}
use bunos.Libc.Memory
use bunos.Bustd.RingBuffer
use bunos.Bustd.RingBuffer.{Ring}
use bunos.Kernel.Keyboard.{
  Keyboard, KeyboardFile, expecting_ack, expecting_key_code, ack, resend, new_keyboard,
  handle_message, handle_all,
}

-- A list, `i` times in a row.
abbrev pub repeat_bytes : ℕ → List ℕ → List ℕ
repeat_bytes zero bs = []
repeat_bytes (suc i) bs = bs ++ repeat_bytes i bs

-- The driver with what is left of the three bytes that the constructor queues.
abbrev pub commanding : ℕ → ℕ → Keyboard
commanding start size = record {
  scancode_set = 3;
  shift_count = 0;
  state = expecting_ack;
  command_queue = record {
    start = start;
    size = size;
    buf = 0xF0 ∷ 3 ∷ 0xF4 ∷ 0 ∷ 0 ∷ 0 ∷ 0 ∷ 0 ∷ [];
  };
}

abbrev pub commanded : Keyboard
commanded = record (commanding 3 0) { state = expecting_key_code }

started : new_keyboard true ≡ ok (0xF0 ∷ 3 ∷ [], commanding 0 3)
unfolding new_keyboard RingBuffer.push RingBuffer.init RingBuffer.read RingBuffer.head Memory.memcpy
    RingBuffer.is_empty
started = refl

resend_message :
    (f : KeyboardFile)
    → (handle_message (commanding 0 3) f resend ≡ ok (0xF0 ∷ 3 ∷ [], commanding 0 3, f))
      × (handle_message (commanding 2 1) f resend ≡ ok (0xF4 ∷ [], commanding 2 1, f))
unfolding handle_message RingBuffer.read RingBuffer.head RingBuffer.is_empty Memory.memcpy
resend_message f = (refl, refl)

ack_message :
    (f : KeyboardFile)
    → (handle_message (commanding 0 3) f ack ≡ ok (0xF4 ∷ [], commanding 2 1, f))
      × (handle_message (commanding 2 1) f ack ≡ ok ([], commanded, f))
unfolding handle_message RingBuffer.pop RingBuffer.read RingBuffer.head RingBuffer.is_empty
    RingBuffer.discard Memory.memcpy
ack_message f = (refl, refl)

resends :
    {k k' : Keyboard} {f f' : KeyboardFile} {bs out : List ℕ} (i : ℕ) (ms : List ℕ)
    → handle_message k f resend ≡ ok (bs, k, f)
    → handle_all k f ms ≡ ok (out, k', f')
    → handle_all k f (replicate i resend ++ ms) ≡ ok (repeat_bytes i bs ++ out, k', f')
unfolding handle_all
resends zero ms h rest = rest
resends {bs = bs} {out = out} (suc i) ms h rest =
    rw (h, resends i ms h rest, append_assoc bs (repeat_bytes i bs) out)

-- However often the keyboard asks for a command again before it acknowledges it, the driver sends
-- it again, data byte included, goes on to the next command after the acknowledgement, and
-- after the second one waits for keys with nothing left to send.
pub handle_all_handshake :
    (f : KeyboardFile) (i j : ℕ)
    → (new_keyboard true ≡ ok (0xF0 ∷ 3 ∷ [], commanding 0 3))
      × (handle_all
            (commanding 0 3)
            f
            (replicate i resend ++ ack ∷ (replicate j resend ++ ack ∷ []))
          ≡ ok (
            repeat_bytes i (0xF0 ∷ 3 ∷ []) ++ 0xF4 ∷ (repeat_bytes j (0xF4 ∷ []) ++ []),
            commanded,
            f,
          ))
unfolding handle_all
handle_all_handshake f i j =
    let second : handle_all (commanding 2 1) f (replicate j resend ++ ack ∷ [])
        ≡ ok (repeat_bytes j (0xF4 ∷ []) ++ [], commanded, f) =
      resends j (ack ∷ []) (resend_message f).1 (rw (ack_message f).1) in
    let first : handle_all (commanding 0 3) f (ack ∷ (replicate j resend ++ ack ∷ []))
        ≡ ok (0xF4 ∷ (repeat_bytes j (0xF4 ∷ []) ++ []), commanded, f) =
      rw ((ack_message f).0, second) in
    (started, resends i _ (resend_message f).0 first)
