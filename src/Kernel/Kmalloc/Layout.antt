-- ===== src/Kernel/Kmalloc/Layout.antt =====
-- The headers in memory form a row of blocks that fills the heap.
use bunos.Prelude.{
  ℕ, ◌+◌, ◌-◌, ◌*◌, ◌^◌, ◌≤◌, ◌<◌, ◌≡◌, refl, none, some, List, [], ◌∷◌, ◌++◌, arith, length,
  if◌then◌else◌, ltb, ◌≢◌, ◌∙◌,
}
use bunos.Kernel.Kmalloc.{Block, Allocator, put, next_block}
use bunos.Kernel.Kmalloc.Cells.{span}

-- From address `p` on stand exactly these blocks, up to the heap's end `e`. A block starts no
-- later than `m_last_block`.
abbrev pub Row : Allocator → ℕ → ℕ → List Block → Type 0
Row a e p [] = p ≡ e
Row a e p (b ∷ bs) = (a.mem p ≡ b) × (p ≤ a.last) × Row a e (p + 32 * (b.subblocks + 1)) bs

pub record IsHeap (a : Allocator) (e : ℕ) (cells : List Block) : Type 0 where
  pub row : Row a e a.first cells
  pub started : a.first ≤ a.last
  pub above : a.last < e
  pub no_wrap : e < 2 ^ 32

module _ (a : Allocator) (p : ℕ) (b : Block) where
  pub put_self : (put a p b).mem p ≡ b
  unfolding put
  put_self = ground arith

  pub put_ne : (x : ℕ) → x ≢ p → (put a p b).mem x ≡ a.mem x
  unfolding put
  put_ne x h = ground arith

  pub last-put : (put a p b).last ≡ a.last
  unfolding put
  last-put = refl

  pub first-put : (put a p b).first ≡ a.first
  unfolding put
  first-put = refl

  -- Without wrap-around the next block is where this one ends, if a block may start there.
  pub next_block_at :
      a.mem p ≡ b
      → p + 32 * (b.subblocks + 1) < 2 ^ 32
      → let q = p + 32 * (b.subblocks + 1) in
        next_block a p ≡ (if ltb a.last q then none else some q)
  unfolding next_block
  next_block_at h small = rw h (ground arith)

module _ (a : Allocator) (e : ℕ) where
  pub Row-span : (p : ℕ) (bs : List Block) → Row a e p bs → p + span bs ≡ e
  Row-span p [] h = omega arith
  Row-span p (b ∷ bs) (_, _, h) = omega (arith, Row-span (p + 32 * (b.subblocks + 1)) bs h)

  pub Row-ext :
      (a' : Allocator) (p : ℕ) (bs : List Block)
      → a'.last ≡ a.last
      → ((x : ℕ) → p ≤ x → a'.mem x ≡ a.mem x)
      → Row a e p bs
      → Row a' e p bs
  Row-ext a' p [] el em h = h
  Row-ext a' p (b ∷ bs) el em (hb, hp, h) = (
    em p (omega arith) ∙ hb,
    omega arith,
    Row-ext a' (p + 32 * (b.subblocks + 1)) bs el (λ x hx. em x (omega arith)) h,
  )

  pub Row-behind : (p : ℕ) (xs ys : List Block) → Row a e p (xs ++ ys) → Row a e (p + span xs) ys
  Row-behind p [] ys h = let z : p + 0 ≡ p = omega arith in rw z h
  Row-behind p (x ∷ xs) ys (_, _, h) =
      let z : p + 32 * (x.subblocks + 1) + span xs ≡ p + (32 * (x.subblocks + 1) + span xs) =
        omega arith in
      rw z at (Row-behind (p + 32 * (x.subblocks + 1)) xs ys h)

  -- The blocks behind `xs` are replaced.
  pub Row-replace :
      (a' : Allocator) (p : ℕ) (xs ys zs : List Block)
      → a'.last ≡ a.last
      → ((x : ℕ) → x < p + span xs → a'.mem x ≡ a.mem x)
      → Row a e p (xs ++ ys)
      → Row a' e (p + span xs) zs
      → Row a' e p (xs ++ zs)
  Row-replace a' p [] ys zs el em h k = let z : p + 0 ≡ p = omega arith in rw z at k
  Row-replace a' p (x ∷ xs) ys zs el em (hx, hp, h) k =
      let z : p + (32 * (x.subblocks + 1) + span xs) ≡ p + 32 * (x.subblocks + 1) + span xs =
        omega arith in
      (
        em p (omega arith) ∙ hx,
        omega arith,
        Row-replace a' (p + 32 * (x.subblocks + 1)) xs ys zs el (λ y hy. em y (omega arith)) h
            (rw z at k),
      )

  -- No more blocks than units up to `m_last_block`.
  pub Row-length : (p : ℕ) (bs : List Block) → Row a e p bs → 32 * length bs ≤ a.last + 32 - p
  Row-length p [] h = omega arith
  Row-length p (b ∷ []) (_, hp, h) = omega arith
  Row-length p (b ∷ c ∷ bs) (_, hp, h) =
      omega (arith, Row-length (p + 32 * (b.subblocks + 1)) (c ∷ bs) h)

  module _ (above : a.last < e) (no_wrap : e < 2 ^ 32) where
    pub next_block-some :
        (p : ℕ) (b c : Block) (bs : List Block)
        → Row a e p (b ∷ c ∷ bs)
        → next_block a p ≡ some (p + 32 * (b.subblocks + 1))
    unfolding next_block
    next_block-some p b c bs (hb, hp, h) =
        rw hb (ground (arith, h.1, Row-span (p + 32 * (b.subblocks + 1)) (c ∷ bs) h))

    pub next_block-none : (p : ℕ) (b : Block) → Row a e p (b ∷ []) → next_block a p ≡ none
    unfolding next_block
    next_block-none p b (hb, hp, h) = rw hb (ground arith)
