-- ===== src/Kernel/Keyboard/Tests.antt =====
-- The driver at short runs of messages.
use bunos.Prelude.{ℕ, ◌≡◌, refl, true, List, [], ◌∷◌, ok, arith, replicate}
use bunos.Bustd.RingBuffer.{Ring}
use bunos.Bustd.RingBuffer.Contents.{IsValid}
use bunos.Kernel.Keyboard.{KeyboardFile, file_size, handle_all, new_keyboard, ack, resend}
use bunos.Kernel.Keyboard.Handshake.{commanding, commanded, handle_all_handshake}
use bunos.Kernel.Keyboard.Owner.{
  trigger, open_as, close_as, read_upto, steps, none_left, triggered, opened, closed, did_read,
  steps_owner,
}

abbrev empty_file : KeyboardFile
empty_file = record {
  owning_pid = 7;
  buffer = record { start = 0; size = 0; buf = replicate 10 0 };
}

empty_file-IsValid : IsValid file_size empty_file.buffer
empty_file-IsValid = omega arith

abbrev empty_queue : Ring
empty_queue = record { start = 3; size = 0; buf = replicate 8 0 }

-- Shift down, A down, A up, shift up, B down.
abbrev codes : List ℕ
codes = 0x12 ∷ 0x1C ∷ 0xF0 ∷ 0x1C ∷ 0xF0 ∷ 0x12 ∷ 0x32 ∷ []

handle_all_handshake_example :
    (new_keyboard true ≡ ok (0xF0 ∷ 3 ∷ [], commanding 0 3))
    × (handle_all (commanding 0 3) empty_file (resend ∷ ack ∷ ack ∷ [])
        ≡ ok (0xF0 ∷ 3 ∷ 0xF4 ∷ [], commanded, empty_file))
handle_all_handshake_example = handle_all_handshake empty_file 1 0

steps_owner_example :
    (f' : KeyboardFile) × (steps empty_file
        (trigger 0x61 ∷ open_as 8 ∷ close_as 8 ∷ read_upto 4 ∷ [])
      ≡ ok f')
    × (f'.owning_pid ≡ 7)
    × IsValid file_size f'.buffer
steps_owner_example =
    steps_owner empty_file refl (omega arith) empty_file-IsValid
      (triggered (opened (closed (omega arith) (did_read none_left))))
