-- ===== src/Kernel/Kmalloc/Tests.antt =====
-- The allocator on a heap of eight units at 0x1000, with headers of 16 bytes.
use bunos.Prelude.{ℕ, ◌≡◌, refl, [], ◌∷◌, ok, arith, ◌==◌, if◌then◌else◌}
use bunos.Kernel.Kmalloc.{Block, Allocator, allocate, deallocate, extra_subblocks_of, fits}
use bunos.Kernel.Kmalloc.Cells.{first_fit, used, unused}
use bunos.Kernel.Kmalloc.Layout.{IsHeap}
use bunos.Kernel.Kmalloc.Requests.{
  deallocate-allocate, alloc, free, serve_all, IsSound, Returns, serve_all-IsSound,
}

abbrev blank : ℕ → Block
blank q = used 0

-- One free block of 40 units; `m_last_block` is ten units from the start.
abbrev fresh : Allocator
fresh = record { first = 4096; last = 4416; mem = λ q. if q == 4096 then unused 39 else used 0 }

abbrev heap_end : ℕ
heap_end = 5376

fresh-IsHeap : IsHeap fresh heap_end (unused 39 ∷ [])
fresh-IsHeap = record {
  row = (refl, omega arith, omega arith);
  started = omega arith;
  above = omega arith;
  no_wrap = omega arith;
}

-- One block of three units is in use, the rest is free.
abbrev busy : Allocator
busy = record {
  first = 4096;
  last = 4416;
  mem = λ q. if q == 4096 then used 2 else if q == 4192 then unused 36 else used 0;
}

busy-IsHeap : IsHeap busy heap_end (used 2 ∷ unused 36 ∷ [])
busy-IsHeap = record {
  row = (refl, omega arith, (refl, omega arith, omega arith));
  started = omega arith;
  above = omega arith;
  no_wrap = omega arith;
}

deallocate-allocate_example :
    (p : ℕ) × (a' a'' : Allocator) × (allocate 16 fresh 80 ≡ ok (p, a'))
    × (deallocate 16 a' p ≡ ok a'')
    × IsHeap a'' heap_end (unused 39 ∷ [])
unfolding extra_subblocks_of first_fit fits
deallocate-allocate_example =
    deallocate-allocate 16 80 [] (unused 39) [] (omega arith) fresh-IsHeap tt refl

serve_all-IsSound_example :
    Returns (IsSound heap_end) (serve_all 16 fresh (alloc 80 ∷ alloc 10 ∷ free 4112 ∷ free 5 ∷ []))
serve_all-IsSound_example =
    serve_all-IsSound 16 heap_end (alloc 80 ∷ alloc 10 ∷ free 4112 ∷ free 5 ∷ []) (omega arith)
      (record { cells = unused 39 ∷ []; heap = fresh-IsHeap; apart = tt })
