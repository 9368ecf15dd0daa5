-- ===== src/Kernel/Keyboard.antt =====
-- The PS/2 keyboard driver, kernel/x86/ps2_keyboard.cpp, and the file that it feeds,
-- kernel/process/keyboardfile.cpp. A byte that `ps2::write` sends to the device is a byte of the
-- result. The spin lock and the interrupt guard of the file are not modelled: its operations run
-- one after the other.
pub mod Scancodes
pub mod Layout
pub mod Typing
pub mod Handshake
pub mod Owner
mod Tests
use bunos.Prelude.{
  ℕ, zero, suc, ◌+◌, ◌-◌, ◌%◌, ◌^◌, Bool, true, false, ◌&&◌, ◌||◌, List, [], ◌∷◌, ◌++◌, Result, ok,
  ◌>>=◌, ◌>>◌, check, access, get_elem?, ltb, ◌==◌, ◌!=◌, if◌then◌else◌, replicate, sub32,
}
use bunos.Bustd.RingBuffer
use bunos.Bustd.RingBuffer.{Ring}
use Scancodes.{code, s3_lshift, s3_rshift, s3_release_prefix, scancode_to_ascii, with_shift}

-- The template arguments of the two ring buffers.
abbrev pub queue_size : ℕ
queue_size = 8

abbrev pub file_size : ℕ
file_size = 10

pub record KeyboardFile : Type 0 where
  pub owning_pid : ℕ
  pub buffer : Ring

unfoldable pub key_trigger : KeyboardFile → ℕ → Result KeyboardFile
key_trigger f c = do
  buffer' ← RingBuffer.push file_size f.buffer c
  ok (record f { buffer = buffer' })

unfoldable pub open_file : KeyboardFile → ℕ → Bool × KeyboardFile
open_file f new_pid =
    if f.owning_pid != 0
    then (false, f)
    else (true, record f { owning_pid = new_pid; buffer = RingBuffer.clear file_size f.buffer })

unfoldable pub close_file : KeyboardFile → ℕ → Bool × KeyboardFile
close_file f old_pid =
    if f.owning_pid != old_pid
    then (false, f)
    else (true, record f { owning_pid = 0; buffer = RingBuffer.clear file_size f.buffer })

-- `buffer` is the caller's array.
unfoldable pub read_file : KeyboardFile → List ℕ → ℕ → Result (ℕ × List ℕ × KeyboardFile)
read_file f buffer len = do
  (count, buffer', ring) ← RingBuffer.take_upto file_size f.buffer buffer len
  ok (count, buffer', record f { buffer = ring })

-- The third state has the source's spelling.
pub data State : Type 0 where
  expecting_ack expecting_key_code relase : State

unfoldable pub is_expecting_key_code : State → Bool
is_expecting_key_code expecting_key_code = true
is_expecting_key_code _ = false

-- `m_device` and `m_type` do not change and are left out.
pub record Keyboard : Type 0 where
  pub scancode_set : ℕ
  pub shift_count : ℕ
  pub state : State
  pub command_queue : Ring

abbrev pub enable_scanning : ℕ
enable_scanning = 0xF4

abbrev pub set_scancode_set : ℕ
set_scancode_set = 0xF0

abbrev pub ack : ℕ
ack = 0xFA

abbrev pub resend : ℕ
resend = 0xFE

abbrev pub get_data_byte_count : ℕ → ℕ
get_data_byte_count command = if command == set_scancode_set then 1 else 0

-- The loop of `send_command` over `buffer[i]`, `k` rounds.
data_bytes : List ℕ → ℕ → ℕ → Result (List ℕ)
data_bytes buffer i zero = ok []
data_bytes buffer i (suc k) = do
  b ← access (get_elem? buffer i)
  rest ← data_bytes buffer (i + 1) k
  ok (b ∷ rest)

-- The bytes that are sent. The local buffer starts uninitialised; all of it that is sent has been
-- read into it.
unfoldable pub send_command : Keyboard → Result (List ℕ)
unfolding data_bytes
send_command k = if RingBuffer.is_empty queue_size k.command_queue then ok [] else (do
  command ← RingBuffer.head queue_size k.command_queue
  let n = get_data_byte_count command
  if ltb 0 n
      then (do
        (count, buffer) ← RingBuffer.read queue_size k.command_queue (replicate 2 0) (n + 1)
        check (count == n + 1)
        bytes ← data_bytes buffer 1 n
        ok (command ∷ bytes))
      else ok (command ∷ []))

-- The constructor, for a device that is a keyboard or not.
unfoldable pub new_keyboard : Bool → Result (List ℕ × Keyboard)
unfolding send_command
new_keyboard is_keyboard = do
  check is_keyboard
  q1 ← RingBuffer.push queue_size (RingBuffer.init queue_size) set_scancode_set
  q2 ← RingBuffer.push queue_size q1 3
  q3 ← RingBuffer.push queue_size q2 enable_scanning
  let k : Keyboard = record {
    scancode_set = 3;
    shift_count = 0;
    state = expecting_ack;
    command_queue = q3;
  }
  sent ← send_command k
  ok (sent, k)

unfoldable pub feed_scancode : Keyboard → KeyboardFile → ℕ → Result (Keyboard × KeyboardFile)
unfolding is_expecting_key_code key_trigger
feed_scancode k f c =
    let ready = is_expecting_key_code k.state in
    let key_ascii = scancode_to_ascii c in
    if ready && c == code s3_release_prefix
    then ok (record k { state = relase }, f)
    else if c == code s3_lshift || c == code s3_rshift
    then ok (
      (if ready then record k { shift_count = (k.shift_count + 1) % 2 ^ 8 } else record k {
        shift_count = (k.shift_count + 2 ^ 8 - 1) % 2 ^ 8;
        state = expecting_key_code;
      }),
      f,
    )
    else if key_ascii != 0
    then (if ready
        then (do
          f' ← key_trigger f (if ltb 0 k.shift_count then with_shift key_ascii else key_ascii)
          ok (k, f'))
        else ok (record k { state = expecting_key_code }, f))
    else ok (k, f)

-- The answer to a command while one is expected: the bytes sent, and the driver.
unfoldable pub answer : Keyboard → ℕ → Result (List ℕ × Keyboard)
unfolding send_command
answer k message = do
  check (message == resend || message == ack)
  if message == resend then (do sent ← send_command k; ok (sent, k)) else (do
    (prev_command, q) ← RingBuffer.pop queue_size k.command_queue
    let n = get_data_byte_count prev_command
    let q' = if ltb 0 n then (RingBuffer.discard queue_size q n).1 else q
    let k' = record k { command_queue = q' }
    if RingBuffer.is_empty queue_size q'
        then ok ([], record k' { state = expecting_key_code })
        else (do sent ← send_command k'; ok (sent, k')))

unfoldable pub handle_message :
    Keyboard → KeyboardFile → ℕ → Result (List ℕ × Keyboard × KeyboardFile)
unfolding answer feed_scancode
handle_message k f message = do
  check (k.scancode_set == 3)
  elim k.state [
    | expecting_ack ↦ (do (sent, k') ← answer k message; ok (sent, k', f))
    | _ ↦ (do (k', f') ← feed_scancode k f message; ok ([], k', f'))
  ]

-- The messages of a run, one interrupt each.
unfoldable pub handle_all :
    Keyboard → KeyboardFile → List ℕ → Result (List ℕ × Keyboard × KeyboardFile)
unfolding handle_message
handle_all k f [] = ok ([], k, f)
handle_all k f (m ∷ ms) = do
  (sent, k', f') ← handle_message k f m
  (rest, k'', f'') ← handle_all k' f' ms
  ok (sent ++ rest, k'', f'')
