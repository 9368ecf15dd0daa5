-- ===== src/Kernel/PhysicalPages/Tests.antt =====
-- With no page given out.
use bunos.Prelude.{
  inl, inr, u64, ◌+◌, ◌*◌, ok, ℕ, zero, suc, ◌<◌, ◌≡◌, ◌⊎◌, some, true, List, panic, arith,
  get_elem?, replicate, length-replicate,
}
use bunos.Bustd.Bitfield.{at}
use bunos.Bustd.Bitfield.Update.{IsBits}
use bunos.Kernel.PhysicalPages.{allocate_physical_page, free_physical_page}
use bunos.Kernel.PhysicalPages.Release.{free_physical_page-allocate_physical_page}
use bunos.Kernel.PhysicalPages.Fresh.{Allocated, allocate_physical_page_lem}

abbrev no_pages : List ℕ
no_pages = replicate 1024 0

no_pages-IsBits : IsBits 8192 no_pages
no_pages-IsBits = record {
  enough = omega (arith, length-replicate {A = ℕ} 1024 0);
  bytes = λ k x e. zeros 1024 k x e;
}
  where
    zeros : (n k x : ℕ) → get_elem? (replicate n 0) k ≡ some x → x < 256
    zeros zero k x e = cc
    zeros (suc n) zero x e = ground (arith, e)
    zeros (suc n) (suc k) x e = zeros n k x e

allocate_physical_page_lem_example :
    Allocated 0x200000 no_pages (allocate_physical_page 0x200000 no_pages)
    ⊎ ((allocate_physical_page 0x200000 no_pages ≡ panic)
        × ((j : ℕ) → j < 8192 → at 8192 no_pages j ≡ ok true))
allocate_physical_page_lem_example = allocate_physical_page_lem 0x200000 no_pages-IsBits

first_page : Allocated 0x200000 no_pages (allocate_physical_page 0x200000 no_pages)
unfolding at
first_page = elim (allocate_physical_page_lem 0x200000 no_pages-IsBits) [
  | inl a ↦ a
  | inr (_, all_taken) ↦ let e = all_taken 0 (omega arith) in absurd (ground (arith, e))
]

free_physical_page-allocate_physical_page_example :
    (freed : List ℕ) × (free_physical_page 0x200000 first_page.after
        (u64 (first_page.i * 0x1000 + 0x200000))
      ≡ ok freed)
    × ((j : ℕ) → j < 8192 → at 8192 freed j ≡ at 8192 no_pages j)
free_physical_page-allocate_physical_page_example =
    free_physical_page-allocate_physical_page 0x200000 0x200 (omega arith) (omega arith) first_page
