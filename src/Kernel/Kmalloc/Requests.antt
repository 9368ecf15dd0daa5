-- ===== src/Kernel/Kmalloc/Requests.antt =====
-- The heap from its construction on, under any sequence of requests.
use bunos.Prelude.{
  ℕ, zero, suc, ◌+◌, ◌-◌, ◌*◌, ◌/◌, ◌%◌, ◌^◌, ◌≤◌, ◌<◌, ◌≡◌, refl, ◌⊎◌, inl, inr, Option, none,
  some, List, [], ◌∷◌, ◌++◌, Result, ok, panic, ◌>>=◌, arith, length, ◌==◌, Bool-cases, add32,
  sub32, mul32, ap, ◌∙◌,
}
use bunos.Kernel.Kmalloc.{
  Block, Allocator, put, init, rounds, locate, allocate, deallocate, extra_subblocks_of,
}
use bunos.Kernel.Kmalloc.Cells.{
  span, span-append, first_fit, carve, release, used, unused, IsCoalesced, carve_greedy,
}
use bunos.Kernel.Kmalloc.Layout.{
  Row, IsHeap, Row-span, Row-length, next_block-some, next_block-none, put_self, last-put,
  first-put,
}
use bunos.Kernel.Kmalloc.Allocate.{allocate-none, allocate-some, first_fit_parts}
use bunos.Kernel.Kmalloc.Locate.{locate_on, locate_end}
use bunos.Kernel.Kmalloc.Release.{deallocate_lem}
use bunos.Kernel.Kmalloc.Coalesced.{allocated-IsCoalesced, release-IsCoalesced, carve-Restorable}

-- For a heap that is aligned to `BLOCK_SIZE` and holds at least one block, the constructor makes
-- one free block that takes all whole blocks of the heap.
pub init-IsHeap :
    (heap_start heap_end : ℕ) (mem : ℕ → Block)
    → heap_start % 32 ≡ 0
    → heap_start + 32 ≤ heap_end
    → heap_end < 2 ^ 32
    → let count = (heap_end - heap_start) / 32 in
      (a : Allocator) × (init heap_start heap_end mem ≡ ok a)
      × IsHeap a (heap_start + 32 * count) (unused (count - 1) ∷ [])
      × (a.first ≡ heap_start)
      × (a.last ≡ heap_start + 8 * count)
unfolding init
init-IsHeap heap_start heap_end mem aligned room small =
    let count = (heap_end - heap_start) / 32 in
    let b = unused (count - 1) in
    let raw : Allocator = record { first = heap_start; last = heap_start + 8 * count; mem = mem } in
    let a = put raw heap_start b in
    let e4 : heap_start % 4 ≡ 0 = omega arith in
    let es : sub32 heap_end heap_start ≡ heap_end - heap_start = omega arith in
    let ec : sub32 count 1 ≡ count - 1 = omega arith in
    let el : add32 heap_start (mul32 8 count) ≡ heap_start + 8 * count = omega arith in
    (
      a,
      rw (aligned, e4, es, ec, el),
      record {
        row = (
          put_self raw heap_start b,
          omega (arith, last-put raw heap_start b),
          omega (arith, first-put raw heap_start b),
        );
        started = omega (arith, last-put raw heap_start b, first-put raw heap_start b);
        above = omega (arith, last-put raw heap_start b);
        no_wrap = omega arith;
      },
      first-put raw heap_start b,
      last-put raw heap_start b,
    )

-- On a heap with no two free neighbours, an allocation for which some free block is large enough
-- succeeds, and freeing the address that it returned restores every block of the heap.
pub deallocate-allocate :
    (align_offset size : ℕ) {a : Allocator} {e : ℕ} {cells : List Block} (xs : List Block)
    (b : Block) (ys : List Block)
    → align_offset ≤ 16
    → IsHeap a e cells
    → IsCoalesced cells
    → first_fit (extra_subblocks_of align_offset size) cells ≡ some (xs, b, ys)
    → (p : ℕ) × (a' a'' : Allocator) × (allocate align_offset a size ≡ ok (p, a'))
      × (deallocate align_offset a' p ≡ ok a'')
      × IsHeap a'' e cells
deallocate-allocate align_offset size {a} {e} {cells} xs b ys small v apart h =
    let n = extra_subblocks_of align_offset size in
    let (parts, free, large) = first_fit_parts n cells xs b ys h in
    let (a', runs, v', ef, el) = allocate-some align_offset v size xs b ys h in
    let r = carve-Restorable a.last (a.first + span xs) n xs b ys free large (rw parts at apart) in
    let w : IsHeap a' e (xs ++ used r.size ∷ r.rest) = rw r.shape at v' in
    let (a'', freed, v'') = deallocate_lem align_offset xs (used r.size) r.rest small w in
    let exact : add32 (a.first + span xs) align_offset ≡ a.first + span xs + align_offset = omega (
      arith,
      Row-span a e a.first cells v.row,
      v.no_wrap,
      ap span parts,
      span-append xs (b ∷ ys),
    ) in
    (
      a.first + span xs + align_offset,
      a',
      a'',
      rw exact at runs,
      rw ef at freed,
      rw (r.restored, ← parts) at v'',
    )

-- The search of `deallocate` either is at a block whose data has the address, or panics.
locate_any :
    (a : Allocator) (e : ℕ)
    → a.last < e
    → e < 2 ^ 32
    → (h : ℕ) → h ≤ 16
    → (q fuel p : ℕ) (prev : Option ℕ) (c : Block) (cs : List Block) → length cs < fuel
    → Row a e p (c ∷ cs)
    → ((xs : List Block) × (b : Block) × (ys : List Block) × (c ∷ cs ≡ xs ++ b ∷ ys)
        × (q ≡ p + span xs + h))
      ⊎ (locate fuel h a q prev (some p) ≡ panic)
locate_any a e above no_wrap h small q zero p prev c cs f row = absurd (omega arith)
locate_any a e above no_wrap h small q (suc fuel) p prev c [] f row =
    elim (Bool-cases (p + h == q)) [
      | inl here ↦ inl ([], c, [], refl, ground arith)
      | inr on ↦ inr (
          rw
            (
              locate_on a e above no_wrap h small fuel p q prev (omega arith) (ground arith),
              next_block-none a e above no_wrap p c row,
            )
            (locate_end a e above no_wrap h small fuel q (some p)))
    ]
locate_any a e above no_wrap h small q (suc fuel) p prev c (d ∷ cs) f row =
    elim (Bool-cases (p + h == q)) [
      | inl here ↦ inl ([], c, d ∷ cs, refl, ground arith)
      | inr on ↦
          let r = p + 32 * (c.subblocks + 1) in
          let room : p + 32 ≤ e = omega (arith, Row-span a e p (c ∷ d ∷ cs) row) in
          let step =
            locate_on a e above no_wrap h small fuel p q prev room (ground arith)
            ∙ ap (locate fuel h a q (some p)) (next_block-some a e above no_wrap p c d cs row) in
          elim (locate_any a e above no_wrap h small q fuel r (some p) d cs (omega arith) row.2) [
            | inl (xs, b, ys, eq, at) ↦ inl (c ∷ xs, b, ys, ap (λ t. c ∷ t) eq, omega arith)
            | inr stuck ↦ inr (step ∙ stuck)
          ]
    ]

-- An address that is not the data of some block makes `deallocate` panic; any other is handled as
-- `deallocate_lem` says.
deallocate_any :
    (align_offset q : ℕ) {a : Allocator} {e : ℕ} (cells : List Block)
    → align_offset ≤ 16
    → IsHeap a e cells
    → ((xs : List Block) × (b : Block) × (ys : List Block) × (cells ≡ xs ++ b ∷ ys)
        × (q ≡ a.first + span xs + align_offset))
      ⊎ (deallocate align_offset a q ≡ panic)
unfolding deallocate rounds
deallocate_any align_offset q [] small v = absurd (omega (arith, v.row, v.started, v.above))
deallocate_any align_offset q {a} {e} (c ∷ cs) small v =
    elim (locate_any a e v.above v.no_wrap align_offset small q (rounds a) a.first none c cs
      (omega (arith, Row-length a e a.first (c ∷ cs) v.row, v.started)) v.row) [
        | inl found ↦ inl found
        | inr stuck ↦ inr (rw stuck)
      ]

-- A client's requests. The addresses that it frees are arbitrary numbers.
pub data Request : Type 0 where
  alloc : ℕ → Request
  free : ℕ → Request

pub serve : ℕ → Allocator → Request → Result Allocator
serve align_offset a (alloc size) = do (p, a') ← allocate align_offset a size; ok a'
serve align_offset a (free p) = deallocate align_offset a p

pub serve_all : ℕ → Allocator → List Request → Result Allocator
serve_all align_offset a [] = ok a
serve_all align_offset a (q ∷ qs) = do a' ← serve align_offset a q; serve_all align_offset a' qs

-- The heap is a row of blocks up to its end, with no two free neighbours.
pub record IsSound (e : ℕ) (a : Allocator) : Type 0 where
  pub cells : List Block
  pub heap : IsHeap a e cells
  pub apart : IsCoalesced cells

-- A run panics, or returns a state with the property; it never runs out of fuel or of bounds.
pub data Returns (P : Allocator → Type 0) : Result Allocator → Type 0 where
  returns : {a : Allocator} → P a → Returns P (ok a)
  panics : Returns P panic

serve-IsSound :
    (align_offset e : ℕ) (q : Request) {a : Allocator}
    → align_offset ≤ 16
    → IsSound e a
    → Returns (IsSound e) (serve align_offset a q)
unfolding serve
serve-IsSound align_offset e (alloc size) {a} small v = go (first_fit n v.cells) refl
  where
    n : ℕ
    n = extra_subblocks_of align_offset size

    go :
        (o : Option (List Block × Block × List Block))
        → first_fit n v.cells ≡ o
        → Returns (IsSound e) (serve align_offset a (alloc size))
    go none h = rw (allocate-none align_offset v.heap size h) panics
    go (some (xs, b, ys)) h =
        let (parts, is_free, large) = first_fit_parts n v.cells xs b ys h in
        let (a', runs, v', _, _) = allocate-some align_offset v.heap size xs b ys h in
        rw runs (
          returns (record {
            cells = xs ++ (carve a.last (a.first + span xs) n b ++ ys);
            heap = v';
            apart =
                allocated-IsCoalesced a.last (a.first + span xs) n xs b ys is_free large
                  (rw parts at v.apart);
          }))
serve-IsSound align_offset e (free p) {a} small v =
    elim (deallocate_any align_offset p v.cells small v.heap) [
      | inl (xs, b, ys, parts, at) ↦
          let (a', runs, v') = deallocate_lem align_offset xs b ys small (rw parts at v.heap) in
          rw (at, runs)
            (returns (record {
              cells = release xs b ys;
              heap = v';
              apart = release-IsCoalesced xs b ys (rw parts at v.apart);
            }))
      | inr stuck ↦ rw stuck panics
    ]

-- Whatever a client allocates and frees, in any order and with any addresses, the heap stays a row
-- of blocks that fills it to the same end with no two free neighbours, or the kernel panics: no
-- request runs over the heap's end or loops.
pub serve_all-IsSound :
    (align_offset e : ℕ) (qs : List Request) {a : Allocator}
    → align_offset ≤ 16
    → IsSound e a
    → Returns (IsSound e) (serve_all align_offset a qs)
unfolding serve_all
serve_all-IsSound align_offset e [] small v = returns v
serve_all-IsSound align_offset e (q ∷ qs) {a} small v =
    go (serve-IsSound align_offset e q small v)
      (λ a' v'. serve_all-IsSound align_offset e qs {a = a'} small v')
  where
    go :
        {r : Result Allocator}
        → Returns (IsSound e) r
        → ((a' : Allocator) → IsSound e a' → Returns (IsSound e) (serve_all align_offset a' qs))
        → Returns (IsSound e) (do a' ← r; serve_all align_offset a' qs)
    go (returns {a = a'} v') rest = rest a' v'
    go panics rest = panics

-- A block whose cut would end beyond `m_last_block` is given away whole, however little of it was
-- asked for: `m_last_block` is a quarter of the way to the heap's end, so the rest of the heap
-- cannot be split.
pub allocate_greedy :
    (align_offset size : ℕ) {a : Allocator} {e : ℕ} {cells : List Block} (xs : List Block)
    (b : Block) (ys : List Block)
    → IsHeap a e cells
    → let n = extra_subblocks_of align_offset size in
      first_fit n cells ≡ some (xs, b, ys)
      → n < b.subblocks
      → a.last < a.first + span xs + 32 * (n + 1)
      → (p : ℕ) × (a' : Allocator) × (allocate align_offset a size ≡ ok (p, a'))
        × IsHeap a' e (xs ++ used b.subblocks ∷ ys)
allocate_greedy align_offset size {a} {e} xs b ys v h small beyond =
    let n = extra_subblocks_of align_offset size in
    let p = a.first + span xs in
    let (a', runs, v', _, _) = allocate-some align_offset v size xs b ys h in
    (add32 p align_offset, a', runs, rw (carve_greedy a.last p n b small beyond) at v')
