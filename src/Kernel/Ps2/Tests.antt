-- ===== src/Kernel/Ps2/Tests.antt =====
-- A device that is never busy and answers from a list.
use bunos.Prelude.{ℕ, ◌≡◌, refl, some, List, [], ◌∷◌, ok, ◌==◌, if◌then◌else◌, arith}
use bunos.Kernel.Interrupts.{Ports}
use bunos.Kernel.Ps2.{
  first, second, keyboard, keyboard_with_translation, data_port, init_ps2_controller, poll_port,
  poll_status, read_response, read_input_response, write, detect_device_type,
}
use bunos.Kernel.Ps2.Detect.{silent, sends, free, by_second, translated, detect_device_type_lem}

abbrev next_byte : ℕ → List ℕ → ℕ × List ℕ
next_byte port [] = (0, [])
next_byte port (byte ∷ bytes) = if port == data_port then (byte, bytes) else (0, byte ∷ bytes)

abbrev listed : Ports (List ℕ)
listed = record { in_u8 = next_byte; out_u8 = λ port byte s. s }

detect_device_type_lem_example :
    detect_device_type listed 2 second (0xFA ∷ 0xFA ∷ 0xAB ∷ 0x41 ∷ [])
    ≡ ok (some keyboard_with_translation, [])
detect_device_type_lem_example =
    detect_device_type_lem listed 1 1 second keyboard_with_translation (0xAB ∷ 0x41 ∷ [])
      (0xFA ∷ 0xFA ∷ 0xAB ∷ 0x41 ∷ []) (0xFA ∷ 0xFA ∷ 0xAB ∷ 0x41 ∷ []) (0xFA ∷ 0xAB ∷ 0x41 ∷ [])
      (0xFA ∷ 0xAB ∷ 0x41 ∷ []) (0xAB ∷ 0x41 ∷ []) [] (by_second (free refl refl))
      (sends refl refl silent) (by_second (free refl refl)) (sends refl refl silent) translated
      (sends refl refl (sends refl refl silent)) (omega arith)

-- A controller with one channel and a keyboard.
keyboard_found :
    init_ps2_controller listed 1
      (0 ∷ 0 ∷ 0x55 ∷ 0 ∷ 0xFA ∷ 0xAA ∷ 0 ∷ 0xFA ∷ 0xFA ∷ 0xAB ∷ 0x83 ∷ 0x10 ∷ 0x99 ∷ [])
    ≡ ok (some (first, keyboard), 0x99 ∷ [])
unfolding init_ps2_controller poll_port poll_status read_response read_input_response write
keyboard_found = refl
