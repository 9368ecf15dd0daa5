-- ===== src/Kernel/Pata/Bytes.antt =====
-- Bytes at any offset of the disk.
use native.Mathlib.Nat.{mod-eq_of_lt, mul_comm}
use bunos.Prelude.{
  ℕ, suc, ◌+◌, ◌-◌, ◌*◌, ◌/◌, ◌%◌, ◌^◌, ◌≤◌, ◌<◌, ◌≡◌, ◌∙◌, ap, sym, Bool-cases, inl, inr, List, [],
  ◌∷◌, ok, arith, ltb, if◌then◌else◌, add32, mul32, take, drop, length, replicate, length-replicate,
  length-append, overwrite, overwrite_all,
}
use bunos.Bustd.Math.{maximum}
use bunos.Libc.Memory.Copy.{memcpy_lem}
use bunos.Kernel.Pata.{Bus, DriveData, read_sectors_polling, read_bytes_polling}
use bunos.Kernel.Pata.Serves.{all_bytes, bytes_of, length-bytes_of, Serves, served, sector}
use bunos.Kernel.Pata.Sectors.{
  sectors_of, length-sectors_of, IsDrive, requested, read_sectors_polling_lem,
}

-- The number of sectors that are read for `len` bytes.
unfoldable pub span : ℕ → ℕ → ℕ
span size len = maximum (len / size) 1 + (if ltb 0 (len % size) then 1 else 0)

span-positive : (size len : ℕ) → 0 < span size len
unfolding span
span-positive size len = ground arith

asked :
    (size len k : ℕ)
    → k ≡ span size len
    → k < 256
    → (if ltb 0 (len % size) then add32 (maximum (len / size) 1) 1 else maximum (len / size) 1) ≡ k
unfolding span
asked size len k count few = elim (Bool-cases (ltb 0 (len % size))) [
  | inl more ↦ rw more (omega (arith, rw more at count))
  | inr none ↦ rw none (omega (arith, rw none at count))
]

length-all_bytes :
    {S : Type 0} (bus : Bus S) (n size : ℕ) (s s' : S) (sectors : List (List ℕ))
    → Serves bus n size s sectors s'
    → length (all_bytes sectors) ≡ 2 * size * length sectors
unfolding all_bytes
length-all_bytes bus n size s s' [] (served e clear) = omega arith
length-all_bytes bus n size s s' (ws ∷ sectors) (sector {s3 = s3} polls fetch full words more) =
    let l = length-append (bytes_of ws) (all_bytes sectors) in
    let b = length-bytes_of ws in
    let rest = length-all_bytes bus n size s3 s' sectors more in
    let next : 2 * size * suc (length sectors) ≡ 2 * size + 2 * size * length sectors =
      grind arith in
    omega arith

-- The copy out of the sectors, once they are read.
copied :
    {S : Type 0} (bus : Bus S) (drive : DriveData) (fuel : ℕ) (buffer : List ℕ) (offset len k : ℕ)
    (s s' : S) (content : List ℕ)
    → k ≡ span drive.sector_size_in_bytes len
    → k < 256
    → mul32 k drive.sector_size_in_bytes ≡ length content
    → read_sectors_polling bus drive fuel
        (replicate (length content) 0)
        (offset / drive.sector_size_in_bytes)
        k
        s
      ≡ ok (s', overwrite (replicate (length content) 0) 0 content)
    → offset % drive.sector_size_in_bytes + len ≤ length content
    → len ≤ length buffer
    → read_bytes_polling bus drive fuel buffer offset len s
      ≡ ok (
        s',
        (
          len - len % drive.sector_size_in_bytes,
          overwrite buffer 0 (take len (drop (offset % drive.sector_size_in_bytes) content)),
        ),
      )
unfolding read_bytes_polling span
copied bus drive fuel buffer offset len k s s' content count few product read within room =
    let count' = asked drive.sector_size_in_bytes len k count few in
    let filled : overwrite (replicate (length content) 0) 0 content ≡ content =
      overwrite_all (replicate (length content) 0) content
        (length-replicate {A = ℕ} (length content) 0) in
    rw (
      count',
      product,
      read,
      filled,
      memcpy_lem buffer 0 content (offset % drive.sector_size_in_bytes) len (omega arith) within,
    )

module _ {S : Type 0} (bus : Bus S) {n size total : ℕ} {image : ℕ → List ℕ} {Idle : S → Type 0}
    (law : IsDrive bus n size total image Idle) where
  -- On an idle drive of an even sector size that has the sectors which the code asks for, those
  -- from the one of `offset` on, with numbers up to 0xFFFFFF, fewer than 256 and of less than 4
  -- GiB: when the `len` bytes from `offset` on lie inside them and the buffer has room for those
  -- bytes, the call returns with every fuel that is enough for the drive, and the bytes of the disk
  -- from `offset` on are in the buffer. It returns `len` without its part of a sector.
  pub read_bytes_polling_lem :
      (drive : DriveData) (fuel : ℕ) (buffer : List ℕ) (offset len k : ℕ) (s : S)
      → drive.sector_size_in_bytes ≡ 2 * size
      → drive.lba28_sector_count ≡ total
      → Idle s
      → k ≡ span drive.sector_size_in_bytes len
      → k < 256
      → drive.sector_size_in_bytes * k < 2 ^ 32
      → offset / drive.sector_size_in_bytes + k ≤ total
      → offset / drive.sector_size_in_bytes ≤ 0xFFFFFF
      → offset % drive.sector_size_in_bytes + len ≤ drive.sector_size_in_bytes * k
      → len ≤ length buffer
      → n ≤ fuel
      → (s' : S) × (read_bytes_polling bus drive fuel buffer offset len s
          ≡ ok (
            s',
            (
              len - len % drive.sector_size_in_bytes,
              overwrite buffer 0 (
                  take len (
                    drop
                      (offset % drive.sector_size_in_bytes)
                      (all_bytes (sectors_of image (offset / drive.sector_size_in_bytes) k)))),
            ),
          ))
        × Idle s'
  read_bytes_polling_lem drive fuel buffer offset len k s words sectors idle count few short inside
        low within room enough =
      let first = offset / drive.sector_size_in_bytes in
      let content : List ℕ = all_bytes (sectors_of image first k) in
      let some_sector : 0 < k = rw count (span-positive drive.sector_size_in_bytes len) in
      let (end, serves, _) = requested bus law first k s idle low some_sector few inside in
      let bytes : length content ≡ drive.sector_size_in_bytes * k =
        (rw (length-sectors_of image first k) at
          (length-all_bytes bus n size _ end (sectors_of image first k) serves))
        ∙ ap (λ t. t * k) (sym words) in
      let product : mul32 k drive.sector_size_in_bytes ≡ length content = rw bytes (
        mod-eq_of_lt (rw (mul_comm k drive.sector_size_in_bytes) short)
        ∙ mul_comm k drive.sector_size_in_bytes) in
      let blank = length-replicate {A = ℕ} (length content) 0 in
      let (s', read, idle') =
        read_sectors_polling_lem bus law drive fuel (replicate (length content) 0) first k s words
          sectors idle some_sector few inside low (omega (arith, blank)) enough in
      (
        s',
        copied bus drive fuel buffer offset len k s s' content count few product read
            (rw bytes within) room,
        idle',
      )
