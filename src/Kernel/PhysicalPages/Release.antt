-- ===== src/Kernel/PhysicalPages/Release.antt =====
-- Giving a page back.
use bunos.Prelude.{
  ℕ, ◌+◌, ◌-◌, ◌*◌, ◌/◌, ◌^◌, ◌≤◌, ◌<◌, ◌≡◌, ap, sym, ◌∙◌, true, false, List, ok, ◌==◌, leb, arith,
  inl, inr, u64, u32, Bool-cases, bit_and, bit_and-split, bit_and-zero,
}
use bunos.Bustd.Bitfield.{at, set_bit}
use bunos.Bustd.Bitfield.Update.{replace_lem}
use bunos.Kernel.PhysicalPages.{allocate_physical_page, free_physical_page}
use bunos.Kernel.PhysicalPages.Fresh.{Allocated}

-- When the pages begin at a page boundary and do not reach the end of the address space, the
-- address that an allocation returned can be freed, and after that every page is taken or free
-- as it was before the allocation.
pub free_physical_page-allocate_physical_page :
    (start q : ℕ) {before : List ℕ}
    → start ≡ q * 2 ^ 12
    → start + 2 ^ 25 ≤ 2 ^ 64
    → (a : Allocated start before (allocate_physical_page start before))
    → (freed : List ℕ) × (free_physical_page start a.after (u64 (a.i * 0x1000 + start)) ≡ ok freed)
      × ((j : ℕ) → j < 8192 → at 8192 freed j ≡ at 8192 before j)
unfolding free_physical_page set_bit
free_physical_page-allocate_physical_page start q {before} aligned fits a =
    let (old, freed, was, done, _, now) = replace_lem 8192 a.valid a.i false a.in_range in
    let page : u64 (a.i * 0x1000 + start) ≡ (a.i + q) * 2 ^ 12 + 0 = omega (arith, a.in_range) in
    let split = bit_and-split 12 (a.i + q) 0 0 0xFFF (omega arith) (omega arith) in
    let mask : bit_and ((a.i + q) * 2 ^ 12 + 0) 0xFFF ≡ 0 = rw (bit_and-zero (a.i + q)) at split in
    let above : leb start ((a.i + q) * 2 ^ 12 + 0) ≡ true = ground arith in
    let index : u32 (((a.i + q) * 2 ^ 12 + 0 - start) / 0x1000) ≡ a.i = omega (arith, a.in_range) in
    let self : (a.i == a.i) ≡ true = ground arith in
    let taken : at 8192 a.after a.i ≡ ok true = a.now a.i a.in_range ∙ rw self in
    (
      freed,
      rw (page, mask, above, index, taken, done),
      λ j h. elim (Bool-cases (a.i == j)) [
        | inl t ↦
            let same : a.i ≡ j = ground (arith, t) in
            now j h ∙ rw t (sym (sym (ap (at 8192 before) same) ∙ a.was_free))
        | inr t ↦ now j h ∙ rw t (a.now j h ∙ rw t)
      ],
    )
