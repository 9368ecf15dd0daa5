-- ===== src/Kernel/Pata/Sectors.antt =====
-- Sectors read from a drive that does what ATA drives document.
use bunos.Prelude.{
  ℕ, zero, suc, ◌+◌, ◌*◌, ◌/◌, ◌%◌, ◌^◌, ◌≤◌, ◌<◌, ◌≡◌, refl, sym, ap, List, [], ◌∷◌, ok, arith,
  bit_and, bit_or, length, overwrite, bit_and-split, bit_and-ones, bit_and-zero,
}
use bunos.Kernel.Pata.{Bus, DriveData, request, read_sectors_polling}
use bunos.Kernel.Pata.Serves.{Serves, all_bytes, sectors_served}

-- The sectors of a disk from number `i` on.
abbrev pub sectors_of : (ℕ → List ℕ) → ℕ → ℕ → List (List ℕ)
sectors_of image i zero = []
sectors_of image i (suc k) = image i ∷ sectors_of image (i + 1) k

-- What an ATA drive documents: when it is idle, and the address of a sector, of 28 bits in LBA, the
-- count and the command 0x20 are written to its registers, it hands over the sectors of its image,
-- ends with a clean status and is idle again. A sector has `size` words, and `total` sectors are
-- there.
pub record IsDrive {S : Type 0} (bus : Bus S) (n size total : ℕ) (image : ℕ → List ℕ)
    (Idle : S → Type 0) : Type 0 where
  pub reads :
      (s : S) (head count low mid high : ℕ)
      → Idle s
      → head / 16 ≡ 14
      → 0 < count
      → count < 256
      → low < 256
      → mid < 256
      → high < 256
      → low + mid * 2 ^ 8 + high * 2 ^ 16 + head % 16 * 2 ^ 24 + count ≤ total
      → (s' : S) × Serves bus n size
          (bus.out_u8 0x1F7 0x20 (
            bus.out_u8 0x1F5 high (
              bus.out_u8 0x1F4 mid
                (bus.out_u8 0x1F3 low (bus.out_u8 0x1F2 count (bus.out_u8 0x1F6 head s))))))
          (sectors_of image (low + mid * 2 ^ 8 + high * 2 ^ 16 + head % 16 * 2 ^ 24) count)
          s'
        × Idle s'

byte_mask : (x : ℕ) → bit_and x 0xFF ≡ x % 256
byte_mask x =
    let parts = bit_and-split 8 (x / 256) 0 (x % 256) 255 (omega arith) (omega arith) in
    let whole : x / 256 * 2 ^ 8 + x % 256 ≡ x = omega arith in
    let ones = bit_and-ones 8 (x % 256) (omega arith) in
    let value : 0 * 2 ^ 8 + x % 256 ≡ x % 256 = omega arith in
    rw (whole, bit_and-zero (x / 256), ones, value) at parts

-- The registers that the request writes.
request_lem :
    {S : Type 0} (bus : Bus S) (sector_number count : ℕ) (s : S)
    → sector_number ≤ 0xFFFFFF
    → request bus sector_number count s
      ≡ bus.out_u8 0x1F7 0x20 (
          bus.out_u8 0x1F5 (sector_number / 2 ^ 16 % 256) (
            bus.out_u8 0x1F4 (sector_number / 2 ^ 8 % 256) (
              bus.out_u8 0x1F3
                (sector_number % 256)
                (bus.out_u8 0x1F2 count (bus.out_u8 0x1F6 0xE0 s)))))
unfolding request
request_lem bus sector_number count s low =
    let top : sector_number / 2 ^ 24 ≡ 0 = omega arith in
    let head : bit_or 0xE0 (bit_and (sector_number / 2 ^ 24) 0xF) ≡ 0xE0 =
      ap (λ t. bit_or 0xE0 (bit_and t 0xF)) top in
    λ i. bus.out_u8 0x1F7 0x20 (
      bus.out_u8 0x1F5 (byte_mask (sector_number / 2 ^ 16) i) (
        bus.out_u8 0x1F4 (byte_mask (sector_number / 2 ^ 8) i) (
          bus.out_u8 0x1F3 (byte_mask sector_number i)
            (bus.out_u8 0x1F2 count (bus.out_u8 0x1F6 (head i) s)))))

pub length-sectors_of : (image : ℕ → List ℕ) (i k : ℕ) → length (sectors_of image i k) ≡ k
length-sectors_of image i zero = refl
length-sectors_of image i (suc k) = ap suc (length-sectors_of image (i + 1) k)

module _ {S : Type 0} (bus : Bus S) {n size total : ℕ} {image : ℕ → List ℕ} {Idle : S → Type 0}
    (law : IsDrive bus n size total image Idle) where
  -- What the code's request makes the drive do.
  pub requested :
      (sector_number count : ℕ) (s : S)
      → Idle s
      → sector_number ≤ 0xFFFFFF
      → 0 < count
      → count < 256
      → sector_number + count ≤ total
      → (s' : S) × Serves bus n size
          (request bus sector_number count s)
          (sectors_of image sector_number count)
          s'
        × Idle s'
  requested sector_number count s idle low some_sector few inside =
      let number : sector_number % 256
            + sector_number / 2 ^ 8 % 256 * 2 ^ 8
            + sector_number / 2 ^ 16 % 256 * 2 ^ 16
            + 0xE0 % 16 * 2 ^ 24
          ≡ sector_number =
        omega arith in
      let (s', serves, idle') =
        law.reads s 0xE0 count (sector_number % 256) (sector_number / 2 ^ 8 % 256)
          (sector_number / 2 ^ 16 % 256) idle refl some_sector few (omega arith) (omega arith)
          (omega arith) (omega arith) in
      (s', rw (request_lem bus sector_number count s low) (rw number at serves), idle')

  -- On an idle drive of an even sector size, with the sectors asked for, of numbers up to 0xFFFFFF,
  -- from 1 to 255 of them and with room for them in the buffer: every fuel of `n` or more, where
  -- `n` is the most that the drive keeps the code polling at a wait, is enough for the call to
  -- return. The buffer then begins with the bytes of those sectors of the disk, and the drive is
  -- idle.
  pub read_sectors_polling_lem :
      (drive : DriveData) (fuel : ℕ) (buffer : List ℕ) (sector_number count : ℕ) (s : S)
      → drive.sector_size_in_bytes ≡ 2 * size
      → drive.lba28_sector_count ≡ total
      → Idle s
      → 0 < count
      → count < 256
      → sector_number + count ≤ total
      → sector_number ≤ 0xFFFFFF
      → length (all_bytes (sectors_of image sector_number count)) ≤ length buffer
      → n ≤ fuel
      → (s' : S) × (read_sectors_polling bus drive fuel buffer sector_number count s
          ≡ ok (s', overwrite buffer 0 (all_bytes (sectors_of image sector_number count))))
        × Idle s'
  read_sectors_polling_lem drive fuel buffer sector_number count s words sectors idle some_sector
        few inside low room enough =
      let (s', serves, idle') = requested sector_number count s idle low some_sector few inside in
      let k = length-sectors_of image sector_number count in
      let half : size ≡ drive.sector_size_in_bytes / 2 = omega arith in
      let asked : Serves bus n (drive.sector_size_in_bytes / 2)
          (request bus sector_number (length (sectors_of image sector_number count)) s)
          (sectors_of image sector_number count) s' =
        rw (k, sym half) serves in
      let run =
        sectors_served bus drive n fuel buffer sector_number s s'
          (sectors_of image sector_number count) asked (omega arith) (omega (arith, k))
          (omega (arith, k)) (omega (arith, k)) low room enough in
      (s', rw k at run, idle')
