-- ===== src/Kernel/Kmalloc/Allocate.antt =====
-- `allocate` is first fit on the row of blocks.
use bunos.Prelude.{
  ℕ, ◌+◌, ◌≤◌, ◌≡◌, refl, true, false, Option, none, some, List, [], ◌∷◌, ◌++◌, Result, ok, panic,
  fault, timeout, ◌>>=◌, arith, Bool-cases, inl, inr, add32,
}
use bunos.Kernel.Kmalloc.{Block, Allocator, fits, split, mark, allocate, extra_subblocks_of}
use bunos.Kernel.Kmalloc.Cells.{span, first_fit, carve}
use bunos.Kernel.Kmalloc.Layout.{Row, IsHeap, Row-behind, Row-replace}
use bunos.Kernel.Kmalloc.Scan.{found, scan_first}
use bunos.Kernel.Kmalloc.Carve.{carved_lem}

-- What the search finds is a part of the row: a free block that is large enough, and every block
-- before it is not.
pub first_fit_parts :
    (n : ℕ) (cells xs : List Block) (b : Block) (ys : List Block)
    → first_fit n cells ≡ some (xs, b, ys)
    → (cells ≡ xs ++ b ∷ ys) × (b.free ≡ true) × (n ≤ b.subblocks)
unfolding first_fit fits
first_fit_parts n [] xs b ys h = cc
first_fit_parts n (c ∷ cs) xs b ys h = elim (Bool-cases (fits n c)) [
  | inl here ↦ ground (arith, h)
  | inr on ↦ go (first_fit n cs) refl (rw on at h) (λ zs d ws. first_fit_parts n cs zs d ws)
]
  where
    go :
        (o : Option (List Block × Block × List Block))
        → first_fit n cs ≡ o
        → (let r : Option (List Block × Block × List Block) = elim o [
          | none ↦ none
          | some (zs, d, ws) ↦ some (c ∷ zs, d, ws)
        ] in
            r ≡ some (xs, b, ys))
        → ((zs : List Block) (d : Block) (ws : List Block)
            → first_fit n cs ≡ some (zs, d, ws)
            → (cs ≡ zs ++ d ∷ ws) × (d.free ≡ true) × (n ≤ d.subblocks))
        → (c ∷ cs ≡ xs ++ b ∷ ys) × (b.free ≡ true) × (n ≤ b.subblocks)
    go none e k rec = cc
    go (some (zs, d, ws)) e k rec = ground (arith, rec zs d ws e)

-- A value carried beside the result of a run.
beside {ℓ κ} :
    {A : Type ℓ} {B : Type κ} (m : Result A) (f : A → A) (x : B) {y : A}
    → (m >>= λ s. ok (f s)) ≡ ok y
    → ◌>>=◌ {B = B × A} m (λ s. ok (x, f s)) ≡ ok (x, y)
beside (ok a) f x h = cc
beside panic f x h = cc
beside fault f x h = cc
beside timeout f x h = cc

module _ (align_offset : ℕ) {a : Allocator} {e : ℕ} {cells : List Block} (v : IsHeap a e cells)
    (size : ℕ) where
  -- A request that no free block can hold panics.
  pub allocate-none :
      first_fit (extra_subblocks_of align_offset size) cells ≡ none
      → allocate align_offset a size ≡ panic
  unfolding allocate found
  allocate-none h = rw (scan_first cells (extra_subblocks_of align_offset size) v, h)

  pub allocate-some :
      (xs : List Block) (b : Block) (ys : List Block)
      → let n = extra_subblocks_of align_offset size in
        first_fit n cells ≡ some (xs, b, ys)
        → (a' : Allocator) × (allocate align_offset a size
            ≡ ok (add32 (a.first + span xs) align_offset, a'))
          × IsHeap a' e (xs ++ (carve a.last (a.first + span xs) n b ++ ys))
          × (a'.first ≡ a.first)
          × (a'.last ≡ a.last)
  unfolding allocate found
  allocate-some xs b ys h =
      let n = extra_subblocks_of align_offset size in
      let p = a.first + span xs in
      let (parts, _, large) = first_fit_parts n cells xs b ys h in
      let row : Row a e a.first (xs ++ b ∷ ys) = rw parts at v.row in
      let c =
        carved_lem a e v.above v.no_wrap n p b ys (Row-behind a e a.first xs (b ∷ ys) row) large in
      (
        c.after,
        rw (scan_first cells n v, h)
            (beside (split a p n) (λ s. mark s p false) (add32 p align_offset) c.runs),
        record {
          row = rw c.same_first (
              Row-replace a e c.after a.first xs (b ∷ ys) (carve a.last p n b ++ ys) c.same_last
                c.before row c.row);
          started = omega (arith, c.same_first, c.same_last, v.started);
          above = omega (arith, c.same_last, v.above);
          no_wrap = v.no_wrap;
        },
        c.same_first,
        c.same_last,
      )
