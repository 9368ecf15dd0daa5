-- ===== src/Kernel/Ps2/Detect.antt =====
-- Devices that answer to the commands of detect_device_type.
use bunos.Prelude.{
  ℕ, zero, suc, ◌≤◌, ◌≡◌, ◌≢◌, true, false, some, List, [], ◌∷◌, ok, ◌>>=◌, arith, ◌!=◌, bit_and,
}
use bunos.Kernel.Interrupts.{Ports}
use bunos.Kernel.Ps2.{
  Ps2Device, Ps2DeviceType, mouse_plain, mouse_scroll_wheel, mouse_five_button, keyboard,
  keyboard_with_translation, first, second, data_port, status_register, command_register, poll_port,
  poll_status, write, read_input_response, identify_byte, detect_device_type,
}

-- The bytes by which a device says what it is.
pub data Answer : Ps2DeviceType → List ℕ → Type 0 where
  plain : Answer mouse_plain (0x00 ∷ [])
  scroll_wheel : Answer mouse_scroll_wheel (0x03 ∷ [])
  five_button : Answer mouse_five_button (0x04 ∷ [])
  untranslated : Answer keyboard (0xAB ∷ 0x83 ∷ [])
  translated : Answer keyboard_with_translation (0xAB ∷ 0x41 ∷ [])
  translated' : Answer keyboard_with_translation (0xAB ∷ 0xC1 ∷ [])

module _ {S : Type 0} (ports : Ports S) where
  -- The next bytes at the data port; the port that the code polls before each of them gives 0.
  pub data Sends : S → List ℕ → S → Type 0 where
    silent : {s : S} → Sends s [] s
    sends :
        {s s1 s2 s3 : S} {byte : ℕ} {bytes : List ℕ}
        → ports.in_u8 0 s ≡ (0, s1)
        → ports.in_u8 data_port s1 ≡ (byte, s2)
        → Sends s2 bytes s3
        → Sends s (byte ∷ bytes) s3

  -- Within `n` polls of the status the input buffer is empty.
  pub data FreeWithin : ℕ → S → S → Type 0 where
    free :
        {n status : ℕ} {s s' : S}
        → ports.in_u8 status_register s ≡ (status, s')
        → bit_and status 0x02 ≡ 0
        → FreeWithin (suc n) s s'
    full :
        {n status : ℕ} {s s' s'' : S}
        → ports.in_u8 status_register s ≡ (status, s')
        → bit_and status 0x02 ≢ 0
        → FreeWithin n s' s''
        → FreeWithin (suc n) s s''

  -- The device takes a byte, for the second one behind the prefix, within `n` polls.
  pub data Takes (n : ℕ) (byte : ℕ) : Ps2Device → S → S → Type 0 where
    by_first :
        {s s' : S} → FreeWithin n s s' → Takes n byte first s (ports.out_u8 data_port byte s')
    by_second :
        {s s' : S}
        → FreeWithin n (ports.out_u8 command_register 0xD4 s) s'
        → Takes n byte second s (ports.out_u8 data_port byte s')

  poll_status_lem :
      (n fuel : ℕ) (s s' : S) → FreeWithin n s s' → n ≤ fuel → poll_status ports fuel s ≡ ok s'
  unfolding poll_status
  poll_status_lem zero fuel s s' polls h = elim polls [ ]
  poll_status_lem (suc n) zero s s' polls h = absurd (omega arith)
  poll_status_lem (suc n) (suc fuel) s s' (free {status = status} e clear) h =
      let t : (bit_and status 0x02 != 0) ≡ false = ground arith in rw (e, t)
  poll_status_lem (suc n) (suc fuel) s s' (full {status = status} e ne more) h =
      let t : (bit_and status 0x02 != 0) ≡ true = ground arith in
      rw (e, t) (poll_status_lem n fuel _ s' more (omega arith))

  -- `write` returns once the device takes the byte.
  pub write_lem :
      (n fuel : ℕ) (dev : Ps2Device) (byte : ℕ) (s s' : S)
      → Takes n byte dev s s'
      → n ≤ fuel
      → write ports fuel dev byte s ≡ ok s'
  unfolding write
  write_lem n fuel first byte s _ (by_first {s' = s1} polls) h =
      rw (poll_status_lem n fuel s s1 polls h)
  write_lem n fuel second byte s _ (by_second {s' = s1} polls) h =
      rw (poll_status_lem n fuel (ports.out_u8 command_register 0xD4 s) s1 polls h)

  read_lem :
      (fuel : ℕ) (s s1 s2 : S) (byte : ℕ)
      → ports.in_u8 0 s ≡ (0, s1)
      → ports.in_u8 data_port s1 ≡ (byte, s2)
      → read_input_response ports (suc fuel) s ≡ ok (byte, s2)
  unfolding read_input_response poll_port
  read_lem fuel s s1 s2 byte e e' = rw (e, e')

  identify_lem :
      (fuel : ℕ) (s s' : S) (type : Ps2DeviceType) (bytes : List ℕ)
      → Answer type bytes
      → Sends s bytes s'
      → (read_input_response ports (suc fuel) s >>= λ r. identify_byte ports (suc fuel) r.0 r.1)
        ≡ ok (some type, s')
  unfolding identify_byte
  identify_lem fuel s s' type bytes plain (sends {s1 = s1} {s2 = s2} e e' silent) =
      rw (read_lem fuel s s1 s2 _ e e')
  identify_lem fuel s s' type bytes scroll_wheel (sends {s1 = s1} {s2 = s2} e e' silent) =
      rw (read_lem fuel s s1 s2 _ e e')
  identify_lem fuel s s' type bytes five_button (sends {s1 = s1} {s2 = s2} e e' silent) =
      rw (read_lem fuel s s1 s2 _ e e')
  identify_lem fuel s s' type bytes untranslated
        (sends {s1 = s1} {s2 = s2} e e' (sends {s1 = s3} {s2 = s4} f f' silent)) =
      rw (read_lem fuel s s1 s2 _ e e', read_lem fuel s2 s3 s4 _ f f')
  identify_lem fuel s s' type bytes translated
        (sends {s1 = s1} {s2 = s2} e e' (sends {s1 = s3} {s2 = s4} f f' silent)) =
      rw (read_lem fuel s s1 s2 _ e e', read_lem fuel s2 s3 s4 _ f f')
  identify_lem fuel s s' type bytes translated'
        (sends {s1 = s1} {s2 = s2} e e' (sends {s1 = s3} {s2 = s4} f f' silent)) =
      rw (read_lem fuel s s1 s2 _ e e', read_lem fuel s2 s3 s4 _ f f')

  -- A device that takes and acknowledges both commands, taking each after at most `n` polls, and
  -- then says what it is, is recognised as that, with any fuel above `n`.
  pub detect_device_type_lem :
      (n fuel : ℕ) (dev : Ps2Device) (type : Ps2DeviceType) (bytes : List ℕ) (s s1 s2 s3 s4 s5 : S)
      → Takes n 0xF5 dev s s1
      → Sends s1 (0xFA ∷ []) s2
      → Takes n 0xF2 dev s2 s3
      → Sends s3 (0xFA ∷ []) s4
      → Answer type bytes
      → Sends s4 bytes s5
      → n ≤ fuel
      → detect_device_type ports (suc fuel) dev s ≡ ok (some type, s5)
  unfolding detect_device_type
  detect_device_type_lem n fuel dev type bytes s s1 s2 s3 s4 s5 takes (sends {s1 = t1} e e' silent)
        takes' (sends {s1 = t2} f f' silent) answer says enough =
      rw
        (
          write_lem n (suc fuel) dev 0xF5 s s1 takes (omega arith),
          read_lem fuel s1 t1 s2 _ e e',
          write_lem n (suc fuel) dev 0xF2 s2 s3 takes' (omega arith),
          read_lem fuel s3 t2 s4 _ f f',
        )
        (identify_lem fuel s4 s5 type bytes answer says)
