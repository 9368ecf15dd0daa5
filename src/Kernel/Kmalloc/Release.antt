-- ===== src/Kernel/Kmalloc/Release.antt =====
-- `deallocate` frees the block that holds the address, and joins it with its free neighbours.
use bunos.Prelude.{
  ℕ, ◌+◌, ◌*◌, ◌^◌, ◌≤◌, ◌<◌, ◌≡◌, refl, true, false, Option, none, some, List, [], ◌∷◌, ◌++◌, ok,
  arith, length, length-append, Bool-cases, inl, inr, ◌∙◌,
}
use bunos.Kernel.Kmalloc.{Block, Allocator, put, rounds, merge_from, mark, deallocate}
use bunos.Kernel.Kmalloc.Cells.{
  span, release, unused, release-free, release-used, release-nil, release-cons,
}
use bunos.Kernel.Kmalloc.Layout.{
  Row, IsHeap, Row-ext, Row-behind, Row-replace, Row-length, put_self, put_ne, last-put, first-put,
}
use bunos.Kernel.Kmalloc.Locate.{prev_of, locate_lem}
use bunos.Kernel.Kmalloc.Merge.{Merged, merge_lem}

module _ (a : Allocator) (p q : ℕ) (c : Block) (h : a.mem p ≡ c) where
  merge_from_free : c.free ≡ true → merge_from a q (some p) ≡ p
  unfolding merge_from
  merge_from_free f = ground (arith, h)

  merge_from_used : c.free ≡ false → merge_from a q (some p) ≡ q
  unfolding merge_from
  merge_from_used f = ground (arith, h)

module _ (a : Allocator) (e : ℕ) (above : a.last < e) (no_wrap : e < 2 ^ 32) (fuel : ℕ) (b : Block)
    (ys : List Block) (enough : length ys + 1 < fuel) where
  -- The freed block stands behind `c` and `xs`.
  release_lem :
      (p : ℕ) (prev : Option ℕ) (c : Block) (xs : List Block)
      → Row a e p ((c ∷ xs) ++ unused b.subblocks ∷ ys)
      → Merged a e fuel
          (merge_from a (p + span (c ∷ xs)) (prev_of p prev (c ∷ xs)))
          p
          (release (c ∷ xs) b ys)
  unfolding prev_of
  release_lem p prev c [] row = elim (Bool-cases c.free) [
    | inl join ↦
        rw (release-free c b ys join, merge_from_free a p (p + span (c ∷ [])) c row.0 join)
          (merge_lem a e above no_wrap fuel p c (unused b.subblocks ∷ ys) (omega arith) row)
    | inr apart ↦
        let q = p + 32 * (c.subblocks + 1) in
        let z : p + (32 * (c.subblocks + 1) + 0) ≡ q = omega arith in
        let m = merge_lem a e above no_wrap fuel q (unused b.subblocks) ys (omega arith) row.2 in
        rw (release-used c b ys apart, merge_from_used a p (p + span (c ∷ [])) c row.0 apart, z)
          (record {
            after = m.after;
            runs = m.runs;
            same_first = m.same_first;
            same_last = m.same_last;
            before = λ x hx. m.before x (omega arith);
            row = (m.before p (omega arith) ∙ row.0, omega (arith, m.same_last, row.1), m.row);
          })
  ]
  release_lem p prev c (d ∷ xs) row =
      let q = p + 32 * (c.subblocks + 1) in
      let z : p + (32 * (c.subblocks + 1) + span (d ∷ xs)) ≡ q + span (d ∷ xs) = omega arith in
      let m = release_lem q (some p) d xs row.2 in
      rw (release-cons c d b xs ys, z)
        (record {
          after = m.after;
          runs = m.runs;
          same_first = m.same_first;
          same_last = m.same_last;
          before = λ x hx. m.before x (omega arith);
          row = (m.before p (omega arith) ∙ row.0, omega (arith, m.same_last, row.1), m.row);
        })

  release_any :
      (p : ℕ) (xs : List Block)
      → Row a e p (xs ++ unused b.subblocks ∷ ys)
      → Merged a e fuel (merge_from a (p + span xs) (prev_of p none xs)) p (release xs b ys)
  unfolding prev_of merge_from
  release_any p [] row =
      let z : p + 0 ≡ p = omega arith in
      rw (release-nil, z)
        (merge_lem a e above no_wrap fuel p (unused b.subblocks) ys (omega arith) row)
  release_any p (c ∷ xs) row = release_lem p none c xs row

freed :
    (a : Allocator) (e p : ℕ) (xs : List Block) (b : Block) (ys : List Block)
    → Row a e p (xs ++ b ∷ ys)
    → Row (mark a (p + span xs) true) e p (xs ++ unused b.subblocks ∷ ys)
unfolding mark
freed a e p xs b ys row =
    let q = p + span xs in
    let at = Row-behind a e p xs (b ∷ ys) row in
    let c : Block = unused (a.mem q).subblocks in
    let s = put a q c in
    let same : c ≡ unused b.subblocks = rw at.0 refl in
    Row-replace a e s p xs (b ∷ ys) (unused b.subblocks ∷ ys) (last-put a q c)
      (λ x hx. put_ne a q c x (omega arith)) row
      (
        put_self a q c ∙ same,
        omega (arith, at.1, last-put a q c),
        Row-ext a e s (q + 32 * (b.subblocks + 1)) ys (last-put a q c)
            (λ x hx. put_ne a q c x (omega arith)) at.2,
      )

rounds_more :
    {a : Allocator} {e : ℕ} (xs : List Block) (b : Block) (ys : List Block)
    → IsHeap a e (xs ++ b ∷ ys)
    → (length xs < rounds a) × (length ys + 1 < rounds a)
unfolding rounds
rounds_more {a} {e} xs b ys v =
    omega
      (arith, Row-length a e a.first (xs ++ b ∷ ys) v.row, v.started, length-append {0} xs (b ∷ ys))

-- Freeing the data address of any block of the heap returns; the block and the free ones next to
-- it become one free block, and all other blocks are as they were.
pub deallocate_lem :
    (align_offset : ℕ) {a : Allocator} {e : ℕ} (xs : List Block) (b : Block) (ys : List Block)
    → align_offset ≤ 16
    → IsHeap a e (xs ++ b ∷ ys)
    → (a' : Allocator) × (deallocate align_offset a (a.first + span xs + align_offset) ≡ ok a')
      × IsHeap a' e (release xs b ys)
unfolding deallocate
deallocate_lem align_offset {a} {e} xs b ys small v =
    let q = a.first + span xs in
    let s = mark a q true in
    let (enough, more) = rounds_more xs b ys v in
    let el : s.last ≡ a.last = unfold mark in last-put a q (unused (a.mem q).subblocks) in
    let ef : s.first ≡ a.first = unfold mark in first-put a q (unused (a.mem q).subblocks) in
    let m =
      release_any s e (omega (arith, el, v.above)) v.no_wrap (rounds a) b ys more a.first xs
        (freed a e a.first xs b ys v.row) in
    (
      m.after,
      rw
          (locate_lem a e v.above v.no_wrap align_offset small (rounds a) a.first none xs b ys
            enough v.row)
          m.runs,
      record {
        row = rw (m.same_first ∙ ef) m.row;
        started = omega (arith, m.same_first, m.same_last, el, ef, v.started);
        above = omega (arith, m.same_last, el, v.above);
        no_wrap = v.no_wrap;
      },
    )
