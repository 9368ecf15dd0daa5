-- ===== src/Kernel/VirtualMemory/Indices.antt =====
-- A virtual address as two indices and an offset.
use bunos.Prelude.{
  ℕ, ◌+◌, ◌-◌, ◌*◌, ◌/◌, ◌%◌, ◌^◌, ◌<◌, ◌≡◌, ap₂, ◌∙◌, arith, bit_and, bit_and-split, bit_and-ones,
  bit_and-zero,
}
use bunos.Kernel.VirtualMemory.{
  virtual_address_from_indices, page_dir_index_from_addr, page_table_index_from_addr,
}

pub page_mask : (a : ℕ) → a < 2 ^ 32 → bit_and a 0xFFFFF000 ≡ a / 2 ^ 12 * 2 ^ 12
page_mask a h =
    let low : a % 2 ^ 12 < 2 ^ 12 = omega arith in
    let whole : a ≡ a / 2 ^ 12 * 2 ^ 12 + a % 2 ^ 12 = omega arith in
    let mask : 0xFFFFF000 ≡ (2 ^ 20 - 1) * 2 ^ 12 + 0 = omega arith in
    let parts = bit_and-split 12 (a / 2 ^ 12) (2 ^ 20 - 1) (a % 2 ^ 12) 0 low (omega arith) in
    let ones = bit_and-ones 20 (a / 2 ^ 12) (omega arith) in
    let zeros = bit_and-zero (a % 2 ^ 12) in
    ap₂ (λ x y. bit_and x y) whole mask ∙ omega (arith, parts, ones, zeros)

pub page_dir_index_from_addr_lem : (a : ℕ) → a < 2 ^ 32 → page_dir_index_from_addr a ≡ a / 2 ^ 22
unfolding page_dir_index_from_addr
page_dir_index_from_addr_lem a h = let e = page_mask a h in omega (arith, e)

pub page_table_index_from_addr_lem : (a : ℕ) → page_table_index_from_addr a ≡ a % 2 ^ 22 / 2 ^ 12
unfolding page_table_index_from_addr
page_table_index_from_addr_lem a = omega arith

-- The indices of an address are those of entries, and lead back to the start of its page.
pub virtual_address_from_indices_lem :
    (a : ℕ)
    → a < 2 ^ 32
    → (page_dir_index_from_addr a < 1024)
      × (page_table_index_from_addr a < 1024)
      × (virtual_address_from_indices (page_dir_index_from_addr a) (page_table_index_from_addr a)
          ≡ a - a % 0x1000)
unfolding virtual_address_from_indices
virtual_address_from_indices_lem a h =
    let d = page_dir_index_from_addr_lem a h in
    let t = page_table_index_from_addr_lem a in
    (omega (arith, d), omega (arith, t), rw (d, t) (omega arith))
