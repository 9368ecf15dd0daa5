-- ===== src/Kernel/Kmalloc/Scan.antt =====
-- The search of `allocate` ends, and finds what first fit finds.
use bunos.Prelude.{
  ℕ, zero, suc, ◌+◌, ◌*◌, ◌^◌, ◌<◌, ◌≡◌, refl, true, false, Option, none, some, List, [], ◌∷◌,
  Result, ok, panic, arith, length, Bool-cases, inl, inr, ap, sym, ◌∙◌,
}
use bunos.Kernel.Kmalloc.{Block, Allocator, next_block, rounds, fits, scan}
use bunos.Kernel.Kmalloc.Cells.{span, first_fit}
use bunos.Kernel.Kmalloc.Layout.{Row, IsHeap, Row-length, next_block-some, next_block-none}

-- What the search returns for a row from `p` on.
unfoldable pub found : ℕ → Option (List Block × Block × List Block) → Result ℕ
found p none = panic
found p (some (xs, b, ys)) = ok (p + span xs)

found-cons :
    (p : ℕ) (n : ℕ) (b : Block) (bs : List Block)
    → fits n b ≡ false
    → found p (first_fit n (b ∷ bs)) ≡ found (p + 32 * (b.subblocks + 1)) (first_fit n bs)
unfolding found first_fit
found-cons p n b bs h = rw h (go (first_fit n bs))
  where
    go :
        (o : Option (List Block × Block × List Block))
        → found p (elim o [ none ↦ none | some (xs, c, ys) ↦ some (b ∷ xs, c, ys) ])
          ≡ found (p + 32 * (b.subblocks + 1)) o
    go none = refl
    go (some (xs, c, ys)) = ap ok (omega arith)

found_here :
    (p n : ℕ) (b : Block) (bs : List Block)
    → fits n b ≡ true
    → found p (first_fit n (b ∷ bs)) ≡ ok p
unfolding found first_fit
found_here p n b bs h = rw h (ap ok (omega arith))

module _ (a : Allocator) (e : ℕ) (above : a.last < e) (no_wrap : e < 2 ^ 32) (n : ℕ) where
  scan_here :
      (fuel p : ℕ) (b : Block) → a.mem p ≡ b → fits n b ≡ true → scan (suc fuel) a n (some p) ≡ ok p
  unfolding scan
  scan_here fuel p b hb h = ground (arith, hb, h)

  scan_on :
      (fuel p : ℕ) (b : Block)
      → a.mem p ≡ b
      → fits n b ≡ false
      → scan (suc fuel) a n (some p) ≡ scan fuel a n (next_block a p)
  unfolding scan
  scan_on fuel p b hb h = ground (arith, hb, h)

  scan_end : (fuel : ℕ) → scan fuel a n none ≡ panic
  unfolding scan
  scan_end zero = refl
  scan_end (suc fuel) = refl

  found_nil : (p : ℕ) → found p (first_fit n []) ≡ panic
  unfolding found first_fit
  found_nil p = refl

  scan_lem :
      (fuel p : ℕ) (b : Block) (bs : List Block)
      → length bs < fuel
      → Row a e p (b ∷ bs)
      → scan fuel a n (some p) ≡ found p (first_fit n (b ∷ bs))
  scan_lem zero p b bs h row = absurd (omega arith)
  scan_lem (suc fuel) p b [] h row = elim (Bool-cases (fits n b)) [
    | inl here ↦ scan_here fuel p b row.0 here ∙ sym (found_here p n b [] here)
    | inr on ↦ rw (
      scan_on fuel p b row.0 on,
      found-cons p n b [] on,
      next_block-none a e above no_wrap p b row,
      scan_end,
      found_nil,
    )
  ]
  scan_lem (suc fuel) p b (c ∷ cs) h row = elim (Bool-cases (fits n b)) [
    | inl here ↦ scan_here fuel p b row.0 here ∙ sym (found_here p n b (c ∷ cs) here)
    | inr on ↦
        rw
          (
            scan_on fuel p b row.0 on,
            found-cons p n b (c ∷ cs) on,
            next_block-some a e above no_wrap p b c cs row,
          )
          (scan_lem fuel (p + 32 * (b.subblocks + 1)) c cs (omega arith) row.2)
  ]

rounds_enough :
    {a : Allocator} {e : ℕ} (b : Block) (bs : List Block)
    → IsHeap a e (b ∷ bs)
    → length bs < rounds a
unfolding rounds
rounds_enough {a} {e} b bs v = omega (arith, Row-length a e a.first (b ∷ bs) v.row, v.started)

-- The search of `allocate` ends, and finds what first fit finds.
pub scan_first :
    {a : Allocator} {e : ℕ} (cells : List Block) (n : ℕ)
    → IsHeap a e cells
    → scan (rounds a) a n (some a.first) ≡ found a.first (first_fit n cells)
scan_first [] n v = absurd (omega (arith, v.row, v.started, v.above))
scan_first {a} {e} (b ∷ bs) n v =
    scan_lem a e v.above v.no_wrap n (rounds a) a.first b bs (rounds_enough b bs v) v.row
