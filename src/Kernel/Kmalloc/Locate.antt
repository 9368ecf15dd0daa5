-- ===== src/Kernel/Kmalloc/Locate.antt =====
-- The search of `deallocate` ends at the block whose data has the address.
use bunos.Prelude.{
  ℕ, zero, suc, ◌+◌, ◌*◌, ◌^◌, ◌≤◌, ◌<◌, ◌≡◌, refl, Option, none, some, List, [], ◌∷◌, ◌++◌, ok,
  panic, arith, length, ◌≢◌,
}
use bunos.Kernel.Kmalloc.{Block, Allocator, next_block, locate}
use bunos.Kernel.Kmalloc.Cells.{span}
use bunos.Kernel.Kmalloc.Layout.{Row, Row-span, next_block-some}

-- The block before the one behind `xs`, in a walk that starts at `p`.
unfoldable pub prev_of : ℕ → Option ℕ → List Block → Option ℕ
prev_of p prev [] = prev
prev_of p prev (c ∷ cs) = prev_of (p + 32 * (c.subblocks + 1)) (some p) cs

module _ (a : Allocator) (e : ℕ) (above : a.last < e) (no_wrap : e < 2 ^ 32) where
  module _ (h : ℕ) (small : h ≤ 16) where
    pub locate_here :
        (fuel p : ℕ) (prev : Option ℕ)
        → p + 32 ≤ e
        → locate (suc fuel) h a (p + h) prev (some p) ≡ ok (p, prev)
    unfolding locate
    locate_here fuel p prev room = ground arith

    pub locate_on :
        (fuel p q : ℕ) (prev : Option ℕ)
        → p + 32 ≤ e
        → p + h ≢ q
        → locate (suc fuel) h a q prev (some p) ≡ locate fuel h a q (some p) (next_block a p)
    unfolding locate
    locate_on fuel p q prev room ne = ground arith

    pub locate_end : (fuel q : ℕ) (prev : Option ℕ) → locate fuel h a q prev none ≡ panic
    unfolding locate
    locate_end zero q prev = refl
    locate_end (suc fuel) q prev = refl

    pub locate_lem :
        (fuel p : ℕ) (prev : Option ℕ) (xs : List Block) (b : Block) (ys : List Block)
        → length xs < fuel
        → Row a e p (xs ++ b ∷ ys)
        → locate fuel h a (p + span xs + h) prev (some p) ≡ ok (p + span xs, prev_of p prev xs)
    unfolding prev_of
    locate_lem zero p prev xs b ys f row = absurd (omega arith)
    locate_lem (suc fuel) p prev [] b ys f row =
        let z : p + 0 ≡ p = omega arith in
        let room : p + 32 ≤ e = omega (arith, Row-span a e p (b ∷ ys) row) in
        rw (z, locate_here fuel p prev room)
    locate_lem (suc fuel) p prev (c ∷ []) b ys f row =
        let q = p + 32 * (c.subblocks + 1) in
        let z : p + (32 * (c.subblocks + 1) + 0) ≡ q + 0 = omega arith in
        let room : p + 32 ≤ e = omega (arith, Row-span a e p (c ∷ b ∷ ys) row) in
        rw
          (
            z,
            locate_on fuel p (q + 0 + h) prev room (omega arith),
            next_block-some a e above no_wrap p c b ys row,
          )
          (locate_lem fuel q (some p) [] b ys (omega arith) row.2)
    locate_lem (suc fuel) p prev (c ∷ d ∷ xs) b ys f row =
        let q = p + 32 * (c.subblocks + 1) in
        let z : p + (32 * (c.subblocks + 1) + span (d ∷ xs)) ≡ q + span (d ∷ xs) = omega arith in
        let room : p + 32 ≤ e = omega (arith, Row-span a e p (c ∷ d ∷ (xs ++ b ∷ ys)) row) in
        rw
          (
            z,
            locate_on fuel p (q + span (d ∷ xs) + h) prev room (omega arith),
            next_block-some a e above no_wrap p c d (xs ++ b ∷ ys) row,
          )
          (locate_lem fuel q (some p) (d ∷ xs) b ys (omega arith) row.2)
