-- ===== src/Kernel/Kmalloc/Merge.antt =====
-- `merge_blocks` takes in the free blocks that follow.
use bunos.Prelude.{
  ℕ, zero, suc, ◌+◌, ◌*◌, ◌^◌, ◌<◌, ◌≡◌, refl, true, false, none, some, List, [], ◌∷◌, ok, arith,
  length, Bool-cases, inl, inr, ◌∙◌, add32,
}
use bunos.Kernel.Kmalloc.{Block, Allocator, put, next_block, merge_blocks}
use bunos.Kernel.Kmalloc.Cells.{coalesce, coalesce-free, coalesce-used, coalesce-nil}
use bunos.Kernel.Kmalloc.Layout.{
  Row, Row-span, Row-ext, next_block-some, next_block-none, put_self, put_ne, last-put, first-put,
}

-- What the loop of `merge_blocks` does from the block at `p` on.
pub record Merged (a : Allocator) (e fuel from p : ℕ) (cells : List Block) : Type 0 where
  pub after : Allocator
  pub runs : merge_blocks fuel a from ≡ ok after
  pub same_first : after.first ≡ a.first
  pub same_last : after.last ≡ a.last
  pub before : (x : ℕ) → x < p → after.mem x ≡ a.mem x
  pub row : Row after e p cells

merge_end :
    (a : Allocator) (fuel p : ℕ) → next_block a p ≡ none → merge_blocks (suc fuel) a p ≡ ok a
unfolding merge_blocks
merge_end a fuel p h = ground (arith, h)

merge_stop :
    (a : Allocator) (fuel p q : ℕ) (c : Block)
    → next_block a p ≡ some q
    → a.mem q ≡ c
    → c.free ≡ false
    → merge_blocks (suc fuel) a p ≡ ok a
unfolding merge_blocks
merge_stop a fuel p q c h hc f = ground (arith, h, hc)

merge_on :
    (a : Allocator) (fuel p q : ℕ) (b c : Block) (n : ℕ)
    → add32 b.subblocks (add32 c.subblocks 1) ≡ n
    → next_block a p ≡ some q
    → a.mem p ≡ b
    → a.mem q ≡ c
    → c.free ≡ true
    → merge_blocks (suc fuel) a p ≡ merge_blocks fuel (put a p (record b { subblocks = n })) p
unfolding merge_blocks
merge_on a fuel p q b c n hn h hb hc f = ground (arith, hn, h, hb, hc)

-- Each round takes in one free neighbour; the loop ends within one round for each block.
pub merge_lem :
    (a : Allocator) (e : ℕ)
    → a.last < e
    → e < 2 ^ 32
    → (fuel p : ℕ) (b : Block) (bs : List Block) → length bs < fuel
    → Row a e p (b ∷ bs)
    → Merged a e fuel p p (coalesce b bs)
merge_lem a e above no_wrap zero p b bs f row = absurd (omega arith)
merge_lem a e above no_wrap (suc fuel) p b [] f row = record {
  after = a;
  runs = merge_end a fuel p (next_block-none a e above no_wrap p b row);
  same_first = refl;
  same_last = refl;
  before = λ x hx. refl;
  row = rw coalesce-nil row;
}
merge_lem a e above no_wrap (suc fuel) p b (c ∷ cs) f row = elim (Bool-cases c.free) [
  | inr stop ↦ record {
    after = a;
    runs =
        merge_stop a fuel p (p + 32 * (b.subblocks + 1)) c
          (next_block-some a e above no_wrap p b c cs row) row.2.0 stop;
    same_first = refl;
    same_last = refl;
    before = λ x hx. refl;
    row = rw (coalesce-used b c cs stop) row;
  }
  | inl on ↦
      let b' : Block = record b { subblocks = b.subblocks + (c.subblocks + 1) } in
      let z : add32 b.subblocks (add32 c.subblocks 1) ≡ b.subblocks + (c.subblocks + 1) =
        omega (arith, Row-span a e p (b ∷ c ∷ cs) row) in
      let w : p + 32 * (b.subblocks + 1) + 32 * (c.subblocks + 1) ≡ p + 32 * (b'.subblocks + 1) =
        omega arith in
      let tail : Row a e (p + 32 * (b'.subblocks + 1)) cs = rw w at row.2.2 in
      let a1 = put a p b' in
      let el = last-put a p b' in
      let m = merge_lem a1 e (omega (arith, el)) no_wrap fuel p b' cs (omega arith) (
        put_self a p b',
        omega (arith, el, row.1),
        Row-ext a e a1 (p + 32 * (b'.subblocks + 1)) cs el (λ x hx. put_ne a p b' x (omega arith))
            tail,
      ) in
      record {
        after = m.after;
        runs =
            merge_on a fuel p (p + 32 * (b.subblocks + 1)) b c (b.subblocks + (c.subblocks + 1)) z
              (next_block-some a e above no_wrap p b c cs row) row.0 row.2.0 on
            ∙ m.runs;
        same_first = m.same_first ∙ first-put a p b';
        same_last = m.same_last ∙ el;
        before = λ x hx. m.before x hx ∙ put_ne a p b' x (omega arith);
        row = rw (coalesce-free b c cs on) m.row;
      }
]
