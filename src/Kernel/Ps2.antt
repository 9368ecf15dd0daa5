-- ===== src/Kernel/Ps2.antt =====
-- kernel/x86/ps2.cpp: the controller of the keyboard, behind ports that are a parameter. A loop
-- that polls has fuel. What is printed is left out.
pub mod Detect
mod Tests
use bunos.Prelude.{
  ℕ, zero, suc, Bool, true, false, not, ◌&&◌, ◌||◌, Option, some, none, Result, ok, panic, timeout,
  ◌>>=◌, ◌>>◌, check, ◌==◌, ◌!=◌, if◌then◌else◌, bit_and, bit_or,
}
use bunos.Kernel.Interrupts.{Ports}

abbrev pub data_port : ℕ
data_port = 0x60

abbrev pub status_register : ℕ
status_register = 0x64

abbrev pub command_register : ℕ
command_register = 0x64

pub data Ps2DeviceType : Type 0 where
  mouse_plain mouse_scroll_wheel mouse_five_button keyboard keyboard_with_translation :
      Ps2DeviceType

pub data Ps2Device : Type 0 where
  first second : Ps2Device

unfoldable pub is_first : Ps2Device → Bool
is_first first = true
is_first second = false

unfoldable pub is_keyboard : Ps2DeviceType → Bool
is_keyboard keyboard = true
is_keyboard keyboard_with_translation = true
is_keyboard mouse_plain = false
is_keyboard mouse_scroll_wheel = false
is_keyboard mouse_five_button = false

module _ {S : Type 0} (ports : Ports S) where
  -- `while (in_u8(port) != 0)`. The callers mask the number of the port and not what is read from it.
  unfoldable pub poll_port : ℕ → ℕ → S → Result S
  poll_port zero port s = timeout
  poll_port (suc fuel) port s =
      let (v, s') = ports.in_u8 port s in
      let again = poll_port fuel port s' in if v != 0 then again else ok s'

  unfoldable pub write_command : ℕ → ℕ → ℕ → S → Result S
  unfolding poll_port
  write_command fuel command byte s = do
    s' ← poll_port fuel (bit_and status_register 0x01) (ports.out_u8 command_register command s)
    ok (ports.out_u8 data_port byte s')

  unfoldable pub read_response : ℕ → S → Result (ℕ × S)
  read_response fuel s = do
    s' ← poll_port fuel (bit_and status_register 0x01) s
    ok (ports.in_u8 data_port s')

  unfoldable pub read_input_response : ℕ → S → Result (ℕ × S)
  read_input_response fuel s = do
    s' ← poll_port fuel (bit_and status_register 0x02) s
    ok (ports.in_u8 data_port s')

  unfoldable pub read_command : ℕ → ℕ → S → Result (ℕ × S)
  unfolding read_response
  read_command fuel command s = read_response fuel (ports.out_u8 command_register command s)

  -- The loop of `ps2::write`, which does look at the status.
  unfoldable pub poll_status : ℕ → S → Result S
  poll_status zero s = timeout
  poll_status (suc fuel) s =
      let (status, s') = ports.in_u8 status_register s in
      let again = poll_status fuel s' in if bit_and status 0x02 != 0 then again else ok s'

  unfoldable pub write : ℕ → Ps2Device → ℕ → S → Result S
  unfolding is_first
  write fuel dev byte s = do
    s' ← poll_status fuel (if is_first dev then s else ports.out_u8 command_register 0xD4 s)
    ok (ports.out_u8 data_port byte s')

  unfoldable pub read_isr_response : S → ℕ × S
  read_isr_response s = ports.in_u8 data_port s

  -- The second byte of a keyboard's answer.
  unfoldable pub keyboard_type : ℕ → Option Ps2DeviceType
  keyboard_type second_byte =
      if second_byte == 0x41 || second_byte == 0xC1
      then some keyboard_with_translation
      else if second_byte == 0x83
      then some keyboard
      else none

  unfoldable pub identify_byte : ℕ → ℕ → S → Result (Option Ps2DeviceType × S)
  unfolding keyboard_type
  identify_byte fuel first_device_byte s =
      let second_byte : Result (Option Ps2DeviceType × S) = (do
        (byte, s') ← read_input_response fuel s
        ok (keyboard_type byte, s')) in
      if first_device_byte == 0x00
      then ok (some mouse_plain, s)
      else if first_device_byte == 0x03
      then ok (some mouse_scroll_wheel, s)
      else if first_device_byte == 0x04
      then ok (some mouse_five_button, s)
      else if first_device_byte == 0xAB
      then second_byte
      else ok (none, s)

  -- `none` for a device that is not recognised.
  unfoldable pub detect_device_type : ℕ → Ps2Device → S → Result (Option Ps2DeviceType × S)
  unfolding identify_byte
  detect_device_type fuel dev s = do
    s1 ← write fuel dev 0xF5 s
    (response, s2) ← read_input_response fuel s1
    let identify : Result (Option Ps2DeviceType × S) = (do
      s3 ← write fuel dev 0xF2 s2
      (response', s4) ← read_input_response fuel s3
      let first_byte : Result (Option Ps2DeviceType × S) = (do
        (byte, s5) ← read_input_response fuel s4
        identify_byte fuel byte s5)
      if response' != 0xFA then ok (none, s4) else first_byte)
    if response != 0xFA then ok (none, s2) else identify

  unfoldable pub enable_interrupt : ℕ → Ps2Device → S → Result S
  unfolding read_command write_command is_first
  enable_interrupt fuel dev s = do
    (response, s') ← read_command fuel 0x20 s
    write_command fuel 0x60 (bit_or response (if is_first dev then 0x01 else 0x02)) s'

  -- The keyboard that is found, with the one found before.
  unfoldable pub found_keyboard :
      Ps2Device
      → Option Ps2DeviceType
      → Option (Ps2Device × Ps2DeviceType)
      → Option (Ps2Device × Ps2DeviceType)
  unfolding is_keyboard
  found_keyboard dev none before = before
  found_keyboard dev (some type) before = if is_keyboard type then some (dev, type) else before

  unfoldable pub check_device :
      ℕ
      → Ps2Device
      → Option (Ps2Device × Ps2DeviceType)
      → S
      → Result (Option (Ps2Device × Ps2DeviceType) × S)
  unfolding detect_device_type found_keyboard is_first
  check_device fuel dev before s = do
    s1 ← write fuel dev 0xFF (ports.out_u8 command_register (if is_first dev then 0xAE else 0xA8) s)
    (reset_response, s2) ← read_input_response fuel s1
    check (reset_response == 0xFA)
    (reset_test_result, s3) ← read_input_response fuel s2
    check (reset_test_result == 0xAA)
    (f, s4) ← read_input_response fuel s3
    (type, s5) ← detect_device_type fuel dev s4
    ok (found_keyboard dev type before, s5)

  -- The tests of a channel: whether a device is there.
  unfoldable pub test_channel : ℕ → ℕ → S → Result (Bool × S)
  test_channel fuel command s = do
    (response, s') ← read_command fuel command s
    ok (response == 0x00, s')

  -- The keyboard that the driver is then made for, if there is one.
  unfoldable pub init_ps2_controller : ℕ → S → Result (Option (Ps2Device × Ps2DeviceType) × S)
  unfolding check_device enable_interrupt test_channel
  init_ps2_controller fuel s = do
    let disabled = ports.out_u8 command_register 0xA7 (ports.out_u8 command_register 0xAD s)
    let (flushed, s1) = ports.in_u8 data_port disabled
    (configuration, s2) ← read_command fuel 0x20 s1
    let is_double_channel = bit_and configuration 0x20 != 0
    s3 ← write_command fuel 0x60 (bit_and configuration 0xBC) s2
    (self_test, s4) ← read_command fuel 0xAA s3
    check (self_test != 0xFC)
    check (self_test == 0x55)
    (first_device_available, s5) ← test_channel fuel 0xAB s4
    (second_device_available, s6) ←
        (if is_double_channel then test_channel fuel 0xA9 s5 else ok (false, s5))
    (found1, s7) ←
        (if first_device_available then check_device fuel first none s6 else ok (none, s6))
    (found2, s8) ←
        (if second_device_available then check_device fuel second found1 s7 else ok (found1, s7))
    elim found2 [
      | none ↦ ok (none, s8)
      | some (dev, type) ↦ do s9 ← enable_interrupt fuel dev s8; ok (some (dev, type), s9)
    ]
