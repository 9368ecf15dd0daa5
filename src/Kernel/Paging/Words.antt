-- ===== src/Kernel/Paging/Words.antt =====
-- An entry's word, as a sum of its fields, and the way back.
use bunos.Prelude.{
  ℕ, suc, ◌+◌, ◌*◌, ◌/◌, ◌%◌, ◌^◌, ◌≤◌, ◌<◌, ◌≡◌, sym, ◌∙◌, Bool, true, false, ok, arith, ◌==◌,
  if◌then◌else◌, bit_and, bit_or, bit_and-split, bit_and-zero, bit_and-ones, bit_or-field,
  bit_and-bit,
}
use bunos.Kernel.Paging.{
  PageDirectoryEntry, PageTableEntry, flag_at, available_at, directory_bits, directory_as_u32,
  table_bits, table_as_u32, bit_set, directory_from_u32, table_from_u32,
}

abbrev bit : Bool → ℕ
bit true = 1
bit false = 0

bit-le : (b : Bool) → bit b ≤ 1
bit-le true = omega arith
bit-le false = omega arith

flag_at-bit : (b : Bool) (i : ℕ) → flag_at b i ≡ bit b * 2 ^ i
unfolding flag_at
flag_at-bit true i = omega arith
flag_at-bit false i = omega arith

-- One `out |= flag << i` of an entry for page `p`.
or_flag :
    (p x i : ℕ) (b : Bool)
    → x < 2 ^ i
    → 2 ^ i < 2 ^ 12
    → bit_or (p * 2 ^ 12 + x) (flag_at b i) ≡ p * 2 ^ 12 + (bit b * 2 ^ i + x)
or_flag p x i true hx hi =
    rw (flag_at-bit true i) (bit_or-field 12 i p x 1 hx (omega arith) (omega arith))
or_flag p x i false hx hi =
    rw (flag_at-bit false i) (bit_or-field 12 i p x 0 hx (omega arith) (omega arith))

-- One round of the loop of `from_u32`.
bit_set-bit :
    (w i : ℕ) (b : Bool) (a r : ℕ) → w ≡ (a * 2 + bit b) * 2 ^ i + r → r < 2 ^ i → bit_set w i ≡ b
unfolding bit_set
bit_set-bit w i b a r e h =
    let masked : bit_and w (2 ^ i) ≡ (a * 2 + bit b) % 2 * 2 ^ i =
      rw e (bit_and-bit i (a * 2 + bit b) r h) in
    let last : (a * 2 + bit b) % 2 ≡ bit b = omega (arith, bit-le b) in rw (masked, last) (go b)
  where
    go : (b : Bool) → Path Bool (if bit b * 2 ^ i == 0 then false else true) b
    go true = ground arith
    go false = ground arith

-- The bits of both kinds of entry, by their place.
record Bits : Type 0 where
  pub b0 : Bool
  pub b1 : Bool
  pub b2 : Bool
  pub b3 : Bool
  pub b4 : Bool
  pub b5 : Bool
  pub b7 : Bool
  pub b8 : Bool
  pub available : ℕ

module _ (p : ℕ) (f : Bits) where
  abbrev below : ℕ
  below =
      bit f.b8 * 256
      + (bit f.b7 * 128
          + (bit f.b5 * 32
              + (bit f.b4 * 16
                  + (bit f.b3 * 8 + (bit f.b2 * 4 + (bit f.b1 * 2 + (bit f.b0 * 1 + 0)))))))

  -- The word of page `p`.
  abbrev word : ℕ
  word = p * 2 ^ 12 + (f.available * 2 ^ 9 + below)

  in_range :
      (bit f.b0 ≤ 1)
      × (bit f.b1 ≤ 1)
      × (bit f.b2 ≤ 1)
      × (bit f.b3 ≤ 1)
      × (bit f.b4 ≤ 1)
      × (bit f.b5 ≤ 1)
      × (bit f.b7 ≤ 1)
      × (bit f.b8 ≤ 1)
  in_range = (
    bit-le f.b0,
    bit-le f.b1,
    bit-le f.b2,
    bit-le f.b3,
    bit-le f.b4,
    bit-le f.b5,
    bit-le f.b7,
    bit-le f.b8,
  )

  encode :
      f.available < 8
      → bit_or
          (bit_or
            (bit_or
              (bit_or
                (bit_or
                  (bit_or
                    (bit_or
                      (bit_or (bit_or (p * 2 ^ 12 + 0) (flag_at f.b0 0)) (flag_at f.b1 1))
                      (flag_at f.b2 2))
                    (flag_at f.b3 3))
                  (flag_at f.b4 4))
                (flag_at f.b5 5))
              (flag_at f.b7 7))
            (flag_at f.b8 8))
          (available_at f.available)
        ≡ word
  unfolding available_at
  encode small =
      let (l0, l1, l2, l3, l4, l5, l7, l8) = in_range in
      let s0 = bit f.b0 * 1 + 0 in
      let s1 = bit f.b1 * 2 + s0 in
      let s2 = bit f.b2 * 4 + s1 in
      let s3 = bit f.b3 * 8 + s2 in
      let s4 = bit f.b4 * 16 + s3 in
      let s5 = bit f.b5 * 32 + s4 in
      let s7 = bit f.b7 * 128 + s5 in
      rw (
        or_flag p 0 0 f.b0 (omega arith) (omega arith),
        or_flag p s0 1 f.b1 (omega arith) (omega arith),
        or_flag p s1 2 f.b2 (omega arith) (omega arith),
        or_flag p s2 3 f.b3 (omega arith) (omega arith),
        or_flag p s3 4 f.b4 (omega arith) (omega arith),
        or_flag p s4 5 f.b5 (omega arith) (omega arith),
        or_flag p s5 7 f.b7 (omega arith) (omega arith),
        or_flag p s7 8 f.b8 (omega arith) (omega arith),
        bit_or-field 12 9 p below f.available (omega arith) (omega arith) (omega arith),
      )

  record Decoded : Type 0 where
    pub f0 : bit_set word 0 ≡ f.b0
    pub f1 : bit_set word 1 ≡ f.b1
    pub f2 : bit_set word 2 ≡ f.b2
    pub f3 : bit_set word 3 ≡ f.b3
    pub f4 : bit_set word 4 ≡ f.b4
    pub f5 : bit_set word 5 ≡ f.b5
    pub f6 : bit_set word 6 ≡ false
    pub f7 : bit_set word 7 ≡ f.b7
    pub f8 : bit_set word 8 ≡ f.b8
    pub three : bit_and (word / 2 ^ 9) 7 ≡ f.available
    pub page : bit_and word 0xFFFFF000 ≡ p * 2 ^ 12

  field :
      (w i : ℕ) (b : Bool)
      → w ≡ (w / 2 ^ suc i * 2 + bit b) * 2 ^ i + w % 2 ^ i
      → w % 2 ^ i < 2 ^ i
      → bit_set w i ≡ b
  field w i b e h = bit_set-bit w i b (w / 2 ^ suc i) (w % 2 ^ i) e h

  decode : f.available < 8 → p < 2 ^ 20 → Decoded
  decode small near =
      let (l0, l1, l2, l3, l4, l5, l7, l8) = in_range in
      let e : word / 2 ^ 9 ≡ p * 2 ^ 3 + f.available = omega arith in
      let low = f.available * 2 ^ 9 + below in
      record {
        f0 = field word 0 f.b0 (omega arith) (omega arith);
        f1 = field word 1 f.b1 (omega arith) (omega arith);
        f2 = field word 2 f.b2 (omega arith) (omega arith);
        f3 = field word 3 f.b3 (omega arith) (omega arith);
        f4 = field word 4 f.b4 (omega arith) (omega arith);
        f5 = field word 5 f.b5 (omega arith) (omega arith);
        f6 = field word 6 false (omega arith) (omega arith);
        f7 = field word 7 f.b7 (omega arith) (omega arith);
        f8 = field word 8 f.b8 (omega arith) (omega arith);
        three = rw e (
            bit_and-split 3 p 0 f.available 7 small (omega arith)
            ∙ rw (bit_and-zero p, bit_and-ones 3 f.available small) (omega arith));
        page =
            bit_and-split 12 p 0xFFFFF low 0 (omega arith) (omega arith)
            ∙ rw (bit_and-zero low, bit_and-ones 20 p near) (omega arith);
      }

page_mask : (p : ℕ) → bit_and (p * 2 ^ 12) 0xFFF ≡ 0
page_mask p =
    let low : p * 2 ^ 12 + 0 ≡ p * 2 ^ 12 = omega arith in
    let split = bit_and-split 12 p 0 0 0xFFF (omega arith) (omega arith) in
    rw (low, bit_and-zero p) at split

page_kept : (p : ℕ) → p < 2 ^ 20 → bit_and (p * 2 ^ 12) 0xFFFFF000 ≡ p * 2 ^ 12
page_kept p near =
    let low : p * 2 ^ 12 + 0 ≡ p * 2 ^ 12 = omega arith in
    let split = bit_and-split 12 p 0xFFFFF 0 0 (omega arith) (omega arith) in
    (rw (low, bit_and-ones 20 p near) at split) ∙ low

-- A page directory entry that the processor accepts (the reserved bit is clear, the table's address
-- is that of a page below 4 GiB, `available` has three bits) has a word, and is read back from it.
pub directory_from_u32-as_u32 :
    (e : PageDirectoryEntry) (p : ℕ)
    → e.must_be_zero ≡ false
    → e.available < 8
    → p < 2 ^ 20
    → e.page_table_address ≡ p * 2 ^ 12
    → (w : ℕ) × (directory_as_u32 e ≡ ok w) × (directory_from_u32 w ≡ e)
unfolding directory_as_u32 directory_bits directory_from_u32
directory_from_u32-as_u32 e p clear small near page =
    let f : Bits = record {
      b0 = e.present;
      b1 = e.read_write;
      b2 = e.user;
      b3 = e.write_through;
      b4 = e.cache_disable;
      b5 = e.accessed;
      b7 = e.is_large;
      b8 = e.global;
      available = e.available;
    } in
    let low : p * 2 ^ 12 + 0 ≡ p * 2 ^ 12 = omega arith in
    let d = decode p f small near in
    let enc = rw low at (encode p f small) in
    (
      word p f,
      rw (page, page_mask p, page_kept p near, enc),
      rw (
        d.f0,
        d.f1,
        d.f2,
        d.f3,
        d.f4,
        d.f5,
        d.f6 ∙ sym clear,
        d.f7,
        d.f8,
        d.three,
        d.page ∙ sym page,
      ),
    )

-- A page table entry whose dirty bit and reserved bit are clear has a word, and is read back from
-- it, under the same conditions.
pub table_from_u32-as_u32 :
    (e : PageTableEntry) (p : ℕ)
    → e.must_be_zero ≡ false
    → e.dirty ≡ false
    → e.available < 8
    → p < 2 ^ 20
    → e.page_address ≡ p * 2 ^ 12
    → (w : ℕ) × (table_as_u32 e ≡ ok w) × (table_from_u32 w ≡ e)
unfolding table_as_u32 table_bits table_from_u32
table_from_u32-as_u32 e p clear clean small near page =
    let f : Bits = record {
      b0 = e.present;
      b1 = e.read_write;
      b2 = e.user;
      b3 = e.write_through;
      b4 = e.cache_disable;
      b5 = e.accessed;
      b7 = e.dirty;
      b8 = e.global;
      available = e.available;
    } in
    let low : p * 2 ^ 12 + 0 ≡ p * 2 ^ 12 = omega arith in
    let d = decode p f small near in
    let enc = rw low at (encode p f small) in
    (
      word p f,
      rw (page, page_mask p, page_kept p near, enc),
      rw (
        d.f0,
        d.f1,
        d.f2,
        d.f3,
        d.f4,
        d.f5,
        d.f6 ∙ sym clean,
        d.f7 ∙ clean ∙ sym clear,
        d.f8,
        d.three,
        d.page ∙ sym page,
      ),
    )

-- The word of a page table entry that is dirty is read back as that of one that is not, with the
-- reserved bit set: `as_u32` writes the dirty bit to bit 7 and `from_u32` looks for it at bit 6.
pub table_from_u32-dirty :
    (e : PageTableEntry) (p : ℕ)
    → e.dirty ≡ true
    → e.available < 8
    → p < 2 ^ 20
    → e.page_address ≡ p * 2 ^ 12
    → (w : ℕ) × (table_as_u32 e ≡ ok w)
      × ((table_from_u32 w).dirty ≡ false)
      × ((table_from_u32 w).must_be_zero ≡ true)
unfolding table_as_u32 table_bits table_from_u32
table_from_u32-dirty e p dirty small near page =
    let f : Bits = record {
      b0 = e.present;
      b1 = e.read_write;
      b2 = e.user;
      b3 = e.write_through;
      b4 = e.cache_disable;
      b5 = e.accessed;
      b7 = e.dirty;
      b8 = e.global;
      available = e.available;
    } in
    let low : p * 2 ^ 12 + 0 ≡ p * 2 ^ 12 = omega arith in
    let d = decode p f small near in
    let enc = rw low at (encode p f small) in
    (word p f, rw (page, page_mask p, page_kept p near, enc), d.f6, d.f7 ∙ dirty)
