-- ===== src/Kernel/Pata/Serves.antt =====
-- A drive that hands over sectors, and the loops of the code on it.
use native.Mathlib.Nat.{add-mul}
use bunos.Prelude.{
  ℕ, zero, suc, ◌+◌, ◌*◌, ◌/◌, ◌%◌, ◌^◌, ◌≤◌, ◌<◌, ◌≡◌, ◌≢◌, refl, ap, ◌∙◌, true, false, List, [],
  ◌∷◌, ◌++◌, Result, ok, ◌>>=◌, ◌>>◌, check, arith, leb, ◌==◌, ◌!=◌, bit_and, length, length-append,
  overwrite, overwrite-set, overwrite-nil, overwrite-overwrite, length-overwrite, length-set, set,
  u8,
}
use bunos.Libc.Memory.Copy.{store_ok}
use bunos.Kernel.Pata.{
  Bus, data_port, status_alt, DriveData, poll_busy, poll_ready, in_u16_string, sector_loop, request,
  read_sectors_polling,
}

-- The bytes of words, the low one first.
unfoldable pub bytes_of : List ℕ → List ℕ
bytes_of [] = []
bytes_of (w ∷ ws) = w % 2 ^ 8 ∷ w / 2 ^ 8 % 2 ^ 8 ∷ bytes_of ws

-- The bytes of sectors one behind the other.
unfoldable pub all_bytes : List (List ℕ) → List ℕ
unfolding bytes_of
all_bytes [] = []
all_bytes (ws ∷ sectors) = bytes_of ws ++ all_bytes sectors

pub length-bytes_of : (ws : List ℕ) → length (bytes_of ws) ≡ 2 * length ws
unfolding bytes_of
length-bytes_of [] = refl
length-bytes_of (w ∷ ws) = omega (arith, length-bytes_of ws)

module _ {S : Type 0} (bus : Bus S) where
  -- From `s` on the data port gives these words, and the state is `s'` then.
  pub data Words : S → List ℕ → S → Type 0 where
    no_word : {s : S} → Words s [] s
    word :
        {s s' s'' : S} {w : ℕ} {ws : List ℕ}
        → bus.in_u16 data_port s ≡ (s', w)
        → Words s' ws s''
        → Words s (w ∷ ws) s''

  -- Within `n` polls of the status the drive is not busy any more.
  pub data BusyUntil : ℕ → S → S → Type 0 where
    free :
        {n status : ℕ} {s s' : S}
        → bus.in_u8 status_alt s ≡ (s', status)
        → bit_and status 0x80 ≡ 0
        → BusyUntil (suc n) s s'
    busy :
        {n status : ℕ} {s s' s'' : S}
        → bus.in_u8 status_alt s ≡ (s', status)
        → bit_and status 0x80 ≢ 0
        → BusyUntil n s' s''
        → BusyUntil (suc n) s s''

  -- Within `n` polls it has data, and no error before.
  pub data WaitsUntil : ℕ → S → S → Type 0 where
    has_data :
        {n status : ℕ} {s s' : S}
        → bus.in_u8 status_alt s ≡ (s', status)
        → bit_and status 0x09 ≢ 0
        → bit_and status 0x01 ≡ 0
        → WaitsUntil (suc n) s s'
    waits :
        {n status : ℕ} {s s' s'' : S}
        → bus.in_u8 status_alt s ≡ (s', status)
        → bit_and status 0x09 ≡ 0
        → WaitsUntil n s' s''
        → WaitsUntil (suc n) s s''

  -- A drive that hands over these sectors of `size` words, after at most `n` polls each time, and then
  -- reports neither data nor an error; `s'` is the state behind that report.
  pub data Serves (n size : ℕ) : S → List (List ℕ) → S → Type 0 where
    served :
        {s s' : S} {status : ℕ}
        → bus.in_u8 status_alt s ≡ (s', status)
        → bit_and status 0x09 ≡ 0
        → Serves n size s [] s'
    sector :
        {s s1 s2 s3 s' : S} {ws : List ℕ} {sectors : List (List ℕ)}
        → BusyUntil n s s1
        → WaitsUntil n s1 s2
        → length ws ≡ size
        → Words s2 ws s3
        → Serves n size s3 sectors s'
        → Serves n size s (ws ∷ sectors) s'

  poll_busy_lem :
      (n fuel : ℕ) (s s' : S) → BusyUntil n s s' → n ≤ fuel → poll_busy bus fuel s ≡ ok s'
  unfolding poll_busy
  poll_busy_lem zero fuel s s' polls h = elim polls [ ]
  poll_busy_lem (suc n) zero s s' polls h = absurd (omega arith)
  poll_busy_lem (suc n) (suc fuel) s s' (free {status = status} e clear) h =
      let t : (bit_and status 0x80 != 0) ≡ false = ground arith in rw (e, t)
  poll_busy_lem (suc n) (suc fuel) s s' (busy {status = status} e clear more) h =
      let t : (bit_and status 0x80 != 0) ≡ true = ground arith in
      rw (e, t) (poll_busy_lem n fuel _ s' more (omega arith))

  poll_ready_lem :
      {B : Type 0} (next : S → Result B) (n fuel : ℕ) (s s' : S)
      → WaitsUntil n s s'
      → n ≤ fuel
      → (poll_ready bus fuel s >>= λ r. check (bit_and r.1 0x01 == 0) >> next r.0) ≡ next s'
  unfolding poll_ready
  poll_ready_lem next zero fuel s s' polls h = elim polls [ ]
  poll_ready_lem next (suc n) zero s s' polls h = absurd (omega arith)
  poll_ready_lem next (suc n) (suc fuel) s s' (has_data {status = status} e some_bit clear) h =
      let t : (bit_and status 0x09 == 0) ≡ false = ground arith in
      let u : (bit_and status 0x01 == 0) ≡ true = ground arith in rw (e, t, u)
  poll_ready_lem next (suc n) (suc fuel) s s' (waits {status = status} e clear more) h =
      let t : (bit_and status 0x09 == 0) ≡ true = ground arith in
      rw (e, t) (poll_ready_lem next n fuel _ s' more (omega arith))

  in_u16_string_lem :
      (ws buffer : List ℕ) (at : ℕ) (s s' : S)
      → Words s ws s'
      → at + 2 * length ws ≤ length buffer
      → in_u16_string bus (length ws) buffer at s ≡ ok (s', overwrite buffer at (bytes_of ws))
  unfolding in_u16_string bytes_of
  in_u16_string_lem [] buffer at s s' no_word room = rw (overwrite-nil buffer at)
  in_u16_string_lem (w ∷ ws) buffer at s s' (word {s' = s1} e more) room =
      let first = store_ok buffer at (w % 2 ^ 8) (omega arith) in
      let l : length (set buffer at (w % 2 ^ 8)) ≡ length buffer =
        length-set buffer at (w % 2 ^ 8) in
      let second =
        store_ok (set buffer at (w % 2 ^ 8)) (suc at) (w / 2 ^ 8 % 2 ^ 8) (omega arith) in
      let l' = length-set (set buffer at (w % 2 ^ 8)) (suc at) (w / 2 ^ 8 % 2 ^ 8) in
      let rest =
        in_u16_string_lem ws (set (set buffer at (w % 2 ^ 8)) (suc at) (w / 2 ^ 8 % 2 ^ 8))
          (suc (suc at)) s1 s' more (omega (arith, l, l')) in
      rw (
        e,
        first,
        second,
        rest,
        overwrite-set (set buffer at (w % 2 ^ 8)) (suc at),
        overwrite-set buffer at,
      )

  -- The last status, behind the loop.
  abbrev last_status : S × List ℕ → Result (S × List ℕ)
  last_status r =
      let (s', status) = bus.in_u8 status_alt r.0 in
      check (bit_and status 0x09 == 0) >> ok (s', r.1)

  sector_loop_lem :
      (drive : DriveData) (n fuel i : ℕ) (buffer : List ℕ) (s s' : S) (sectors : List (List ℕ))
      → Serves n (drive.sector_size_in_bytes / 2) s sectors s'
      → drive.sector_size_in_bytes % 2 ≡ 0
      → n ≤ fuel
      → i * drive.sector_size_in_bytes + length (all_bytes sectors) ≤ length buffer
      → (sector_loop bus drive fuel (length sectors) i buffer s >>= last_status)
        ≡ ok (s', overwrite buffer (i * drive.sector_size_in_bytes) (all_bytes sectors))
  unfolding sector_loop all_bytes
  sector_loop_lem drive n fuel i buffer s s' [] (served {status = status} e clear) even enough
        room =
      let t : (bit_and status 0x09 == 0) ≡ true = ground arith in
      rw (e, t, overwrite-nil buffer (i * drive.sector_size_in_bytes))
  sector_loop_lem drive n fuel i buffer s s' (ws ∷ sectors)
        (sector {s1 = s1} {s2 = s2} {s3 = s3} polls fetch size words more) even enough room =
      let l = length-append (bytes_of ws) (all_bytes sectors) in
      let b = length-bytes_of ws in
      let full : 2 * length ws ≡ drive.sector_size_in_bytes = omega arith in
      let next : (i + 1) * drive.sector_size_in_bytes
          ≡ i * drive.sector_size_in_bytes + length (bytes_of ws) =
        add-mul i 1 drive.sector_size_in_bytes ∙ omega arith in
      let wide : (i + 1) * drive.sector_size_in_bytes + length (all_bytes sectors)
          ≤ length (overwrite buffer (i * drive.sector_size_in_bytes) (bytes_of ws)) =
        rw length-overwrite (omega arith) in
      let read =
        in_u16_string_lem ws buffer (i * drive.sector_size_in_bytes) s2 s3 words (omega arith) in
      let rest =
        sector_loop_lem drive n fuel (i + 1)
          (overwrite buffer (i * drive.sector_size_in_bytes) (bytes_of ws)) s3 s' sectors more even
          enough wide in
      let read' : in_u16_string bus (drive.sector_size_in_bytes / 2) buffer
            (i * drive.sector_size_in_bytes) s2
          ≡ ok (s3, overwrite buffer (i * drive.sector_size_in_bytes) (bytes_of ws)) =
        rw size at read in
      let both : overwrite (overwrite buffer (i * drive.sector_size_in_bytes) (bytes_of ws))
            ((i + 1) * drive.sector_size_in_bytes) (all_bytes sectors)
          ≡ overwrite buffer (i * drive.sector_size_in_bytes) (bytes_of ws ++ all_bytes sectors) =
        rw next (overwrite-overwrite buffer _ (bytes_of ws) (all_bytes sectors)) in
      let fetched =
        poll_ready_lem
          (λ s'.
            in_u16_string bus (drive.sector_size_in_bytes / 2) buffer
              (i * drive.sector_size_in_bytes) s'
            >>= λ r. sector_loop bus drive fuel (length sectors) (i + 1) r.1 r.0)
          n fuel s1 s2 fetch enough in
      rw (poll_busy_lem n fuel s s1 polls enough)
        (ap (λ m. m >>= last_status) fetched ∙ rw read' rest ∙ ap (λ b. ok (s', b)) both)

  pub sectors_served :
      (drive : DriveData) (n fuel : ℕ) (buffer : List ℕ) (sector_number : ℕ) (s s' : S)
      (sectors : List (List ℕ))
      → Serves n
          (drive.sector_size_in_bytes / 2)
          (request bus sector_number (length sectors) s)
          sectors
          s'
      → drive.sector_size_in_bytes % 2 ≡ 0
      → 0 < length sectors
      → length sectors < 256
      → sector_number + length sectors ≤ drive.lba28_sector_count
      → sector_number ≤ 0xFFFFFF
      → length (all_bytes sectors) ≤ length buffer
      → n ≤ fuel
      → read_sectors_polling bus drive fuel buffer sector_number (length sectors) s
        ≡ ok (s', overwrite buffer 0 (all_bytes sectors))
  unfolding read_sectors_polling
  sectors_served drive n fuel buffer sector_number s s' sectors serves even some_sector few inside
        low room enough =
      let byte : u8 (length sectors) ≡ length sectors = omega arith in
      let t1 : leb (length sectors) drive.lba28_sector_count ≡ true = ground arith in
      let t2 : leb (sector_number + length sectors) drive.lba28_sector_count ≡ true =
        ground arith in
      let t3 : (length sectors != 0) ≡ true = ground arith in
      let t4 : leb sector_number 0xFFFFFF ≡ true = ground arith in
      let z : 0 * drive.sector_size_in_bytes ≡ 0 = omega arith in
      let run =
        sector_loop_lem drive n fuel 0 buffer (request bus sector_number (length sectors) s) s'
          sectors serves even enough (omega arith) in
      rw (byte, t1, t2, t3, t4) (run ∙ ap (λ j. ok (s', overwrite buffer j (all_bytes sectors))) z)
