-- ===== src/Kernel/Pata.antt =====
-- kernel/x86/pata.cpp: the disk on the primary bus, polled. The ports are a parameter: `S` is what
-- stands behind them, and a read may change it. A loop that polls the status has fuel, which
-- Kernel.Pata.Sectors shows to be enough for a drive that answers. The global s_master_drive is
-- passed on.
pub mod Serves
pub mod Sectors
pub mod Bytes
mod Tests
use bunos.Prelude.{
  ℕ, zero, suc, ◌+◌, ◌-◌, ◌*◌, ◌/◌, ◌%◌, ◌^◌, Bool, true, false, not, ◌&&◌, ◌||◌, Option, some,
  none, List, [], ◌∷◌, Result, ok, panic, timeout, ◌>>=◌, ◌>>◌, check, access, store, ltb, leb,
  ◌==◌, ◌!=◌, if◌then◌else◌, bit_and, bit_or, get_elem?, replicate, u8, u32, add32, mul32,
}
use bunos.Bustd.Math.{maximum}
use bunos.Libc.Memory.{memcpy}

-- The ports of io.hpp.
pub record Bus (S : Type 0) : Type 0 where
  pub in_u8 : ℕ → S → S × ℕ
  pub in_u16 : ℕ → S → S × ℕ
  pub out_u8 : ℕ → ℕ → S → S

abbrev pub data_port : ℕ
data_port = 0x1F0

abbrev pub sector_count : ℕ
sector_count = 0x1F2

abbrev pub lba_low : ℕ
lba_low = 0x1F3

abbrev pub lba_mid : ℕ
lba_mid = 0x1F4

abbrev pub lba_high : ℕ
lba_high = 0x1F5

abbrev pub drive_head : ℕ
drive_head = 0x1F6

abbrev pub command : ℕ
command = 0x1F7

abbrev pub status_alt : ℕ
status_alt = 0x3F6

abbrev pub control : ℕ
control = 0x3F6

pub data Drive : Type 0 where
  master slave : Drive

unfoldable pub drive_code : Drive → ℕ
drive_code master = 0xA0
drive_code slave = 0xB0

pub record DriveData : Type 0 where
  pub lba28_sector_count : ℕ
  pub supports_lba48 : Bool
  pub lba48_sector_count : ℕ
  pub must_use_lba48 : Bool
  pub max_multiple_rw_count : ℕ
  pub sector_size_in_bytes : ℕ

-- `operator[]` of Vector, which asserts that the index is below the length.
abbrev pub slot : List ℕ → ℕ → Result ℕ
slot words i = elim (get_elem? words i) [ none ↦ panic | some w ↦ ok w ]

-- `k` words from index `i` on, the lowest one first.
unfoldable pub words_at : List ℕ → ℕ → ℕ → Result ℕ
words_at identify_data i zero = ok 0
words_at identify_data i (suc k) = do
  w ← access (get_elem? identify_data i)
  rest ← words_at identify_data (i + 1) k
  ok (w + rest * 2 ^ 16)

unfoldable pub parse_info : List ℕ → Result DriveData
unfolding words_at
parse_info identify_data = do
  features ← slot identify_data 83
  lba28 ← words_at identify_data 60 2
  lba48 ← words_at identify_data 100 4
  multiple ← slot identify_data 47
  sector_size ← slot identify_data 106
  check (not (bit_and sector_size 0x4000 == 0 && bit_and sector_size 0x7FFF == 0))
  ok (record {
    lba28_sector_count = lba28;
    supports_lba48 = bit_and features 0x0400 != 0;
    lba48_sector_count = lba48;
    must_use_lba48 = false;
    max_multiple_rw_count = bit_and multiple 0xFF;
    sector_size_in_bytes = 512;
  })

-- What a drive that is there says of itself; `old` for one that is not.
unfoldable pub drive_info : DriveData → List ℕ → Result DriveData
unfolding parse_info
drive_info old [] = ok old
drive_info old (w ∷ ws) = parse_info (w ∷ ws)

module _ {S : Type 0} (bus : Bus S) where
  -- The delay of four reads.
  unfoldable pub four_reads : S → S
  four_reads s0 =
      let (s1, v1) = bus.in_u8 status_alt s0 in
      let (s2, v2) = bus.in_u8 status_alt s1 in
      let (s3, v3) = bus.in_u8 status_alt s2 in let (s4, v4) = bus.in_u8 status_alt s3 in s4

  unfoldable pub reset_bus : S → S
  unfolding four_reads
  reset_bus s = four_reads (bus.out_u8 control 0 (four_reads (bus.out_u8 control 0x04 s)))

  unfoldable pub select_drive : Drive → S → S
  unfolding four_reads drive_code
  select_drive d s = four_reads (bus.out_u8 drive_head (drive_code d) s)

  unfoldable pub disk_present : S → S × Bool
  disk_present s =
      let s1 = bus.out_u8 sector_count 0 s in
      let s2 = bus.out_u8 lba_low 0 s1 in
      let s3 = bus.out_u8 lba_mid 0 s2 in
      let s4 = bus.out_u8 lba_high 0 s3 in
      let (s5, status) = bus.in_u8 status_alt (bus.out_u8 command 0xEC s4) in (s5, status != 0)

  -- Until the drive is not busy.
  unfoldable pub poll_busy : ℕ → S → Result S
  poll_busy zero s = timeout
  poll_busy (suc fuel) s =
      let (s', status) = bus.in_u8 status_alt s in
      let again = poll_busy fuel s' in if bit_and status 0x80 != 0 then again else ok s'

  -- Until there is data or an error; the last status.
  unfoldable pub poll_ready : ℕ → S → Result (S × ℕ)
  poll_ready zero s = timeout
  poll_ready (suc fuel) s =
      let (s', status) = bus.in_u8 status_alt s in
      let again = poll_ready fuel s' in if bit_and status 0x09 == 0 then again else ok (s', status)

  -- `k` words of the drive's data.
  unfoldable pub push_words : ℕ → S → S × List ℕ
  push_words zero s = (s, [])
  push_words (suc k) s =
      let (s', w) = bus.in_u16 data_port s in let (s'', ws) = push_words k s' in (s'', w ∷ ws)

  -- An empty Vector stands for a drive that is not there.
  unfoldable pub identify : ℕ → Drive → S → Result (S × List ℕ)
  unfolding select_drive disk_present poll_busy poll_ready push_words
  identify fuel d s =
      let (s1, present) = disk_present (select_drive d s) in
      let ask : Result (S × List ℕ) = (do
        s2 ← poll_busy fuel s1
        let (s3, high) = bus.in_u8 lba_high s2
        check (high == 0)
        let (s4, mid) = bus.in_u8 lba_mid s3
        check (mid == 0)
        (s5, status) ← poll_ready fuel s4
        check (bit_and status 0x01 == 0)
        check (bit_and status 0x08 != 0)
        ok (push_words 256 s5)) in
      if present then ask else ok (s1, [])

  -- The data of the master drive when there is one, else what it was before.
  unfoldable pub initialize_pata : ℕ → DriveData → S → Result (S × DriveData)
  unfolding reset_bus identify drive_info
  initialize_pata fuel old s = do
    (s1, master_data) ← identify fuel master (reset_bus s)
    drive ← drive_info old master_data
    (s2, slave_data) ← identify fuel slave s1
    other ← drive_info old slave_data
    ok (select_drive master s2, drive)

  -- `count` words to the bytes of the buffer from `at` on.
  unfoldable pub in_u16_string : ℕ → List ℕ → ℕ → S → Result (S × List ℕ)
  in_u16_string zero buffer at s = ok (s, buffer)
  in_u16_string (suc count) buffer at s = do
    let (s', w) = bus.in_u16 data_port s
    low ← store buffer at (w % 2 ^ 8)
    high ← store low (suc at) (w / 2 ^ 8 % 2 ^ 8)
    in_u16_string count high (suc (suc at)) s'

  -- The loop over the sectors at number `i`, with `k` rounds left.
  unfoldable pub sector_loop : DriveData → ℕ → ℕ → ℕ → List ℕ → S → Result (S × List ℕ)
  sector_loop drive fuel zero i buffer s = ok (s, buffer)
  sector_loop drive fuel (suc k) i buffer s = do
    s1 ← poll_busy fuel s
    (s2, status) ← poll_ready fuel s1
    check (bit_and status 0x01 == 0)
    (s3, buffer') ←
        in_u16_string (drive.sector_size_in_bytes / 2) buffer (i * drive.sector_size_in_bytes) s2
    sector_loop drive fuel k (i + 1) buffer' s3

  -- The commands that ask for the sectors.
  unfoldable pub request : ℕ → ℕ → S → S
  request sector count s =
      let s1 = bus.out_u8 drive_head (bit_or 0xE0 (bit_and (sector / 2 ^ 24) 0xF)) s in
      let s2 = bus.out_u8 sector_count count s1 in
      let s3 = bus.out_u8 lba_low (bit_and sector 0xFF) s2 in
      let s4 = bus.out_u8 lba_mid (bit_and (sector / 2 ^ 8) 0xFF) s3 in
      let s5 = bus.out_u8 lba_high (bit_and (sector / 2 ^ 16) 0xFF) s4 in bus.out_u8 command 0x20 s5

  unfoldable pub read_sectors_polling : DriveData → ℕ → List ℕ → ℕ → ℕ → S → Result (S × List ℕ)
  read_sectors_polling drive fuel buffer sector sector_count s = do
    let count = u8 sector_count
    check (leb count drive.lba28_sector_count)
    check (leb (sector + count) drive.lba28_sector_count)
    check (count != 0 || leb 256 (sector + drive.lba28_sector_count))
    check (leb sector 0xFFFFFF)
    (s1, buffer') ← sector_loop drive fuel count 0 buffer (request sector count s)
    let (s2, status) = bus.in_u8 status_alt s1
    check (bit_and status 0x09 == 0)
    ok (s2, buffer')

  -- What is returned, and the buffer. The storage of a new Vector is zeros here; all of it is
  -- written over.
  unfoldable pub read_bytes_polling : DriveData → ℕ → List ℕ → ℕ → ℕ → S → Result (S × (ℕ × List ℕ))
  read_bytes_polling drive fuel buffer offset len s = do
    let size = drive.sector_size_in_bytes
    let overflow = len % size
    let whole = maximum (len / size) 1
    let count = if ltb 0 overflow then add32 whole 1 else whole
    (s', between) ←
        read_sectors_polling drive fuel (replicate (mul32 count size) 0) (offset / size) count s
    buffer' ← memcpy buffer 0 between (offset % size) len
    ok (s', (len - overflow, buffer'))
