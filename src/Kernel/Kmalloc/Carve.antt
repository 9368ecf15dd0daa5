-- ===== src/Kernel/Kmalloc/Carve.antt =====
-- `split` and the marking, on the chosen block of the row.
use bunos.Prelude.{
  ℕ, ◌+◌, ◌-◌, ◌*◌, ◌^◌, ◌≤◌, ◌<◌, ◌≡◌, refl, true, false, none, some, List, ◌∷◌, ◌++◌, ok, ◌>>=◌,
  arith, ltb, leb, ◌==◌, if◌then◌else◌, Bool-cases, inl, inr, ap, ◌∙◌, leb→le, sub32,
}
use bunos.Kernel.Kmalloc.{Block, Allocator, put, next_block, split, mark}
use bunos.Kernel.Kmalloc.Cells.{carve, used, unused, carve_whole, carve_rest, carve_greedy}
use bunos.Kernel.Kmalloc.Layout.{
  Row, Row-span, Row-ext, put_self, put_ne, last-put, first-put, next_block_at,
}

module _ (a : Allocator) (e : ℕ) (above : a.last < e) (no_wrap : e < 2 ^ 32) (n : ℕ) where
  -- What `split` and the marking do to the chosen block.
  pub record Carved (p : ℕ) (b : Block) (bs : List Block) : Type 0 where
    pub after : Allocator
    pub runs : (split a p n >>= λ s. ok (mark s p false)) ≡ ok after
    pub same_first : after.first ≡ a.first
    pub same_last : after.last ≡ a.last
    pub before : (x : ℕ) → x < p → after.mem x ≡ a.mem x
    pub row : Row after e p (carve a.last p n b ++ bs)

  module _ (p : ℕ) (b : Block) (bs : List Block) (h : Row a e p (b ∷ bs)) where
    marked : Allocator → Block → Allocator
    marked s c = put s p (used c.subblocks)

    mark_lem : (s : Allocator) (c : Block) → s.mem p ≡ c → mark s p false ≡ marked s c
    unfolding mark marked
    mark_lem s c hc = rw hc

    -- The row with the block marked used.
    marked-Row :
        (s : Allocator) (c : Block) (cs : List Block)
        → s.last ≡ a.last
        → Row s e (p + 32 * (c.subblocks + 1)) cs
        → Row (marked s c) e p (used c.subblocks ∷ cs)
    unfolding marked
    marked-Row s c cs el row = (
      put_self s p (used c.subblocks),
      omega (arith, h.1, last-put s p (used c.subblocks)),
      Row-ext s e (put s p (used c.subblocks)) (p + 32 * (c.subblocks + 1)) cs
          (last-put s p (used c.subblocks)) (λ x hx. put_ne s p (used c.subblocks) x (omega arith))
          row,
    )

    split_whole : n ≡ b.subblocks → split a p n ≡ ok a
    unfolding split
    split_whole same = ground (arith, h.0)

    Carved-whole : n ≡ b.subblocks → Carved p b bs
    unfolding marked
    Carved-whole same = record {
      after = marked a b;
      runs = rw (split_whole same) (ap ok (mark_lem a b h.0));
      same_first = first-put a p (used b.subblocks);
      same_last = last-put a p (used b.subblocks);
      before = λ x hx. put_ne a p (used b.subblocks) x (omega arith);
      row = rw (carve_whole a.last p n b same, same) (marked-Row a b bs refl h.2);
    }

    -- The chosen block, cut to `n` further units.
    cut : Block
    cut = record b { subblocks = n }

    next_block-cut :
        n < b.subblocks
        → let q = p + 32 * (n + 1) in
          next_block (put a p cut) p ≡ (if ltb a.last q then none else some q)
    unfolding cut put
    next_block-cut small =
        next_block_at (put a p cut) p cut (put_self a p cut)
          (omega (arith, Row-span a e (p + 32 * (b.subblocks + 1)) bs h.2))

    split_small :
        n < b.subblocks
        → split a p n ≡ (elim (next_block (put a p cut) p) [
          | none ↦ ok (put (put a p cut) p b)
          | some next ↦ ok (put (put a p cut) next (unused (sub32 (sub32 b.subblocks 1) n)))
        ])
    unfolding split cut
    split_small small = ground (arith, h.0)

    split_rest :
        n < b.subblocks
        → let q = p + 32 * (n + 1) in
          q ≤ a.last → split a p n ≡ ok (put (put a p cut) q (unused (b.subblocks - 1 - n)))
    split_rest small room =
        let z : sub32 (sub32 b.subblocks 1) n ≡ b.subblocks - 1 - n =
          omega (arith, Row-span a e (p + 32 * (b.subblocks + 1)) bs h.2) in
        let here : ltb a.last (p + 32 * (n + 1)) ≡ false = ground arith in
        rw (split_small small, next_block-cut small, here, z)

    split_greedy :
        n < b.subblocks → a.last < p + 32 * (n + 1) → split a p n ≡ ok (put (put a p cut) p b)
    split_greedy small full =
        let beyond : ltb a.last (p + 32 * (n + 1)) ≡ true = ground arith in
        rw (split_small small, next_block-cut small, beyond)

    Carved-rest : n < b.subblocks → p + 32 * (n + 1) ≤ a.last → Carved p b bs
    unfolding marked cut
    Carved-rest small room =
        let q = p + 32 * (n + 1) in
        let rest = unused (b.subblocks - 1 - n) in
        let s1 = put a p cut in
        let s2 = put s1 q rest in
        let here : s2.mem p ≡ cut = put_ne s1 q rest p (omega arith) ∙ put_self a p cut in
        let el : s2.last ≡ a.last = last-put s1 q rest ∙ last-put a p cut in
        let z : q + 32 * (b.subblocks - 1 - n + 1) ≡ p + 32 * (b.subblocks + 1) = omega arith in
        let tail : Row s2 e (q + 32 * (b.subblocks - 1 - n + 1)) bs = rw z (
          Row-ext a e s2 (p + 32 * (b.subblocks + 1)) bs el
            (λ x hx. put_ne s1 q rest x (omega arith) ∙ put_ne a p cut x (omega arith)) h.2) in
        record {
          after = marked s2 cut;
          runs = rw (split_rest small room) (ap ok (mark_lem s2 cut here));
          same_first = first-put s2 p (used n) ∙ (first-put s1 q rest ∙ first-put a p cut);
          same_last = last-put s2 p (used n) ∙ el;
          before = λ x hx.
              put_ne s2 p (used n) x (omega arith)
              ∙ (put_ne s1 q rest x (omega arith) ∙ put_ne a p cut x (omega arith));
          row =
              rw (carve_rest a.last p n b small room)
                (marked-Row s2 cut (rest ∷ bs) el (put_self s1 q rest, omega (arith, el), tail));
        }

    Carved-greedy : n < b.subblocks → a.last < p + 32 * (n + 1) → Carved p b bs
    unfolding marked cut
    Carved-greedy small full =
        let s1 = put a p cut in
        let s2 = put s1 p b in
        let el : s2.last ≡ a.last = last-put s1 p b ∙ last-put a p cut in
        record {
          after = marked s2 b;
          runs = rw (split_greedy small full) (ap ok (mark_lem s2 b (put_self s1 p b)));
          same_first = first-put s2 p (used b.subblocks) ∙ (first-put s1 p b ∙ first-put a p cut);
          same_last = last-put s2 p (used b.subblocks) ∙ el;
          before = λ x hx.
              put_ne s2 p (used b.subblocks) x (omega arith)
              ∙ (put_ne s1 p b x (omega arith) ∙ put_ne a p cut x (omega arith));
          row = rw (carve_greedy a.last p n b small full) (
              marked-Row s2 b bs el (
                Row-ext a e s2 (p + 32 * (b.subblocks + 1)) bs el
                  (λ x hx. put_ne s1 p b x (omega arith) ∙ put_ne a p cut x (omega arith)) h.2));
        }

    pub carved_lem : n ≤ b.subblocks → Carved p b bs
    carved_lem le = elim (Bool-cases (n == b.subblocks)) [
      | inl same ↦ Carved-whole (ground arith)
      | inr ne ↦ elim (Bool-cases (leb (p + 32 * (n + 1)) a.last)) [
        | inl room ↦ Carved-rest (ground arith) (leb→le _ _ room)
        | inr full ↦ Carved-greedy (ground arith) (ground arith)
      ]
    ]
