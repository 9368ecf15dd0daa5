-- ===== src/Kernel/Kmalloc/Cells.antt =====
-- The heap as a client sees it: a row of blocks, each with its state and size. An allocation takes
-- the first free block that is large enough; a release joins free neighbours.
use bunos.Prelude.{
  ℕ, ◌+◌, ◌-◌, ◌*◌, ◌≤◌, ◌<◌, ◌≡◌, refl, true, false, ◌&&◌, Option, none, some, List, [], ◌∷◌, ◌++◌,
  arith, ◌==◌, leb, if◌then◌else◌,
}
use bunos.Kernel.Kmalloc.{Block, fits}

-- The bytes that a row of blocks takes.
abbrev pub span : List Block → ℕ
span [] = 0
span (b ∷ bs) = 32 * (b.subblocks + 1) + span bs

-- The first block that fits, with the blocks before and behind it.
unfoldable pub first_fit : ℕ → List Block → Option (List Block × Block × List Block)
first_fit n [] = none
first_fit n (b ∷ bs) =
    if fits n b
    then some ([], b, bs)
    else elim (first_fit n bs) [ none ↦ none | some (xs, c, ys) ↦ some (b ∷ xs, c, ys) ]

abbrev pub used : ℕ → Block
used n = record { free = false; subblocks = n }

abbrev pub unused : ℕ → Block
unused n = record { free = true; subblocks = n }

-- What becomes of the chosen block at address `p`. The rest is split off if a header may stand
-- there; otherwise the whole block is given away.
unfoldable pub carve : ℕ → ℕ → ℕ → Block → List Block
carve last p n b =
    if b.subblocks == n
    then used n ∷ []
    else if leb (p + 32 * (n + 1)) last
    then used n ∷ unused (b.subblocks - 1 - n) ∷ []
    else used b.subblocks ∷ []

-- A block takes in the free blocks that follow it.
unfoldable pub coalesce : Block → List Block → List Block
coalesce b [] = b ∷ []
coalesce b (c ∷ bs) =
    if c.free
    then coalesce (record b { subblocks = b.subblocks + (c.subblocks + 1) }) bs
    else b ∷ c ∷ bs

-- `b` is freed between `xs` and `ys`.
unfoldable pub release : List Block → Block → List Block → List Block
release [] b ys = coalesce (unused b.subblocks) ys
release (c ∷ []) b ys =
    if c.free then coalesce c (unused b.subblocks ∷ ys) else c ∷ coalesce (unused b.subblocks) ys
release (c ∷ d ∷ xs) b ys = c ∷ release (d ∷ xs) b ys

-- No two free blocks stand side by side.
abbrev pub IsCoalesced : List Block → Type 0
IsCoalesced [] = Unit
IsCoalesced (b ∷ []) = Unit
IsCoalesced (b ∷ c ∷ bs) = ((b.free && c.free) ≡ false) × IsCoalesced (c ∷ bs)

pub span-append : (xs ys : List Block) → span (xs ++ ys) ≡ span xs + span ys
span-append [] ys = omega arith
span-append (x ∷ xs) ys = omega (arith, span-append xs ys)

module _ (last p n : ℕ) (b : Block) where
  pub carve_whole : n ≡ b.subblocks → carve last p n b ≡ used n ∷ []
  unfolding carve
  carve_whole h = ground arith

  pub carve_rest :
      n < b.subblocks
      → p + 32 * (n + 1) ≤ last
      → carve last p n b ≡ used n ∷ unused (b.subblocks - 1 - n) ∷ []
  unfolding carve
  carve_rest h k = ground arith

  pub carve_greedy :
      n < b.subblocks → last < p + 32 * (n + 1) → carve last p n b ≡ used b.subblocks ∷ []
  unfolding carve
  carve_greedy h k = ground arith

pub coalesce-free :
    (b c : Block) (cs : List Block)
    → c.free ≡ true
    → coalesce b (c ∷ cs) ≡ coalesce (record b { subblocks = b.subblocks + (c.subblocks + 1) }) cs
unfolding coalesce
coalesce-free b c cs h = rw h

pub coalesce-used :
    (b c : Block) (cs : List Block) → c.free ≡ false → coalesce b (c ∷ cs) ≡ b ∷ c ∷ cs
unfolding coalesce
coalesce-used b c cs h = rw h

pub coalesce-nil : (b : Block) → coalesce b [] ≡ b ∷ []
unfolding coalesce
coalesce-nil b = refl

pub release-free :
    (c b : Block) (ys : List Block)
    → c.free ≡ true
    → release (c ∷ []) b ys ≡ coalesce c (unused b.subblocks ∷ ys)
unfolding release
release-free c b ys h = rw h

pub release-used :
    (c b : Block) (ys : List Block)
    → c.free ≡ false
    → release (c ∷ []) b ys ≡ c ∷ coalesce (unused b.subblocks) ys
unfolding release
release-used c b ys h = rw h

pub release-nil : (b : Block) (ys : List Block) → release [] b ys ≡ coalesce (unused b.subblocks) ys
unfolding release
release-nil b ys = refl

pub release-cons :
    (c d b : Block) (xs ys : List Block) → release (c ∷ d ∷ xs) b ys ≡ c ∷ release (d ∷ xs) b ys
unfolding release
release-cons c d b xs ys = refl
