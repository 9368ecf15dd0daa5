-- ===== src/Kernel/Kmalloc/Coalesced.antt =====
-- What the row of blocks keeps: its length in bytes, and that no two free blocks are neighbours.
-- Freeing what was just allocated gives the row back.
use bunos.Prelude.{
  ℕ, ◌+◌, ◌-◌, ◌*◌, ◌≤◌, ◌≡◌, refl, true, false, ◌&&◌, List, [], ◌∷◌, ◌++◌, arith, leb, ◌==◌,
  Bool-cases, inl, inr, ap, leb→le,
}
use bunos.Kernel.Kmalloc.{Block}
use bunos.Kernel.Kmalloc.Cells.{
  span, carve, coalesce, release, used, unused, IsCoalesced, carve_whole, carve_rest, carve_greedy,
  coalesce-free, coalesce-used, coalesce-nil, release-free, release-used, release-nil, release-cons,
}

span-coalesce : (b : Block) (bs : List Block) → span (coalesce b bs) ≡ span (b ∷ bs)
unfolding coalesce
span-coalesce b [] = refl
span-coalesce b (c ∷ bs) =
    ground (arith, span-coalesce (record b { subblocks = b.subblocks + (c.subblocks + 1) }) bs)

-- Freeing moves no boundary of the row.
pub span-release :
    (xs : List Block) (b : Block) (ys : List Block) → span (release xs b ys) ≡ span (xs ++ b ∷ ys)
unfolding release
span-release [] b ys = span-coalesce (unused b.subblocks) ys
span-release (c ∷ []) b ys =
    ground (arith, span-coalesce c (unused b.subblocks ∷ ys), span-coalesce (unused b.subblocks) ys)
span-release (c ∷ d ∷ xs) b ys = omega (arith, span-release (d ∷ xs) b ys)

pub span-carve :
    (last p n : ℕ) (b : Block) → n ≤ b.subblocks → span (carve last p n b) ≡ span (b ∷ [])
unfolding carve
span-carve last p n b h = ground arith

IsCoalesced-tail : (b : Block) (bs : List Block) → IsCoalesced (b ∷ bs) → IsCoalesced bs
IsCoalesced-tail b [] h = tt
IsCoalesced-tail b (c ∷ bs) h = h.1

pub IsCoalesced-behind : (xs ys : List Block) → IsCoalesced (xs ++ ys) → IsCoalesced ys
IsCoalesced-behind [] ys h = h
IsCoalesced-behind (x ∷ xs) ys h = IsCoalesced-behind xs ys (IsCoalesced-tail x (xs ++ ys) h)

-- A block that is not free separates what stands before it from what stands behind.
IsCoalesced-used : (n : ℕ) (ys : List Block) → IsCoalesced ys → IsCoalesced (used n ∷ ys)
IsCoalesced-used n [] h = tt
IsCoalesced-used n (y ∷ ys) h = (refl, h)

IsCoalesced-resize :
    (n : ℕ) (b : Block) (ys : List Block)
    → b.free ≡ true
    → IsCoalesced (b ∷ ys)
    → IsCoalesced (unused n ∷ ys)
IsCoalesced-resize n b [] f h = tt
IsCoalesced-resize n b (y ∷ ys) f h = (rw f at h.0, h.1)

carve-IsCoalesced :
    (last p n : ℕ) (b : Block) (ys : List Block)
    → b.free ≡ true
    → n ≤ b.subblocks
    → IsCoalesced (b ∷ ys)
    → IsCoalesced (carve last p n b ++ ys)
unfolding carve
carve-IsCoalesced last p n b ys f le h = elim (Bool-cases (b.subblocks == n)) [
  | inl e ↦ rw e (IsCoalesced-used n ys (IsCoalesced-tail b ys h))
  | inr ne ↦ rw ne (elim (Bool-cases (leb (p + 32 * (n + 1)) last)) [
    | inl room ↦ rw room (refl, IsCoalesced-resize (b.subblocks - 1 - n) b ys f h)
    | inr full ↦ rw full (IsCoalesced-used b.subblocks ys (IsCoalesced-tail b ys h))
  ])
]

-- What `carve` leaves begins with the block given away; freeing that one restores the old block.
record Given (last p n : ℕ) (b : Block) (ys : List Block) : Type 0 where
  pub size : ℕ
  pub rest : List Block
  pub shape : carve last p n b ++ ys ≡ used size ∷ rest
  pub back : IsCoalesced (b ∷ ys) → coalesce (unused size) rest ≡ b ∷ ys

coalesce_apart :
    (b : Block) (ys : List Block)
    → b.free ≡ true
    → IsCoalesced (b ∷ ys)
    → coalesce (unused b.subblocks) ys ≡ b ∷ ys
unfolding coalesce
coalesce_apart b [] f h = ground (arith, f)
coalesce_apart b (y ∷ ys) f h = ground (arith, f, h.0)

coalesce_rest :
    (m n : ℕ) (b : Block) (ys : List Block)
    → b.free ≡ true
    → m + (n + 1) ≡ b.subblocks
    → IsCoalesced (b ∷ ys)
    → coalesce (unused m) (unused n ∷ ys) ≡ b ∷ ys
unfolding coalesce
coalesce_rest m n b ys f e h = rw e (coalesce_apart b ys f h)

given :
    (last p n : ℕ) (b : Block) (ys : List Block)
    → b.free ≡ true
    → n ≤ b.subblocks
    → Given last p n b ys
given last p n b ys f le = elim (Bool-cases (n == b.subblocks)) [
  | inl e ↦
      let same : n ≡ b.subblocks = ground arith in
      record {
        size = b.subblocks;
        rest = ys;
        shape = rw (carve_whole last p n b same, same);
        back = coalesce_apart b ys f;
      }
  | inr ne ↦ elim (Bool-cases (leb (p + 32 * (n + 1)) last)) [
    | inl room ↦ record {
      size = n;
      rest = unused (b.subblocks - 1 - n) ∷ ys;
      shape = rw (carve_rest last p n b (ground arith) (leb→le _ _ room));
      back = coalesce_rest n (b.subblocks - 1 - n) b ys f (ground arith);
    }
    | inr full ↦ record {
      size = b.subblocks;
      rest = ys;
      shape = rw (carve_greedy last p n b (ground arith) (ground arith));
      back = coalesce_apart b ys f;
    }
  ]
]

IsCoalesced-behind_used :
    (xs : List Block) (b : Block) (ys : List Block) (n : ℕ) (ws : List Block)
    → IsCoalesced (xs ++ b ∷ ys)
    → IsCoalesced (used n ∷ ws)
    → IsCoalesced (xs ++ used n ∷ ws)
IsCoalesced-behind_used [] b ys n ws h k = k
IsCoalesced-behind_used (x ∷ []) b ys n ws h k = (ground arith, k)
IsCoalesced-behind_used (x ∷ y ∷ xs) b ys n ws h k =
    (h.0, IsCoalesced-behind_used (y ∷ xs) b ys n ws h.1 k)

-- An allocation leaves no two free neighbours.
pub allocated-IsCoalesced :
    (last p n : ℕ) (xs : List Block) (b : Block) (ys : List Block)
    → b.free ≡ true
    → n ≤ b.subblocks
    → IsCoalesced (xs ++ b ∷ ys)
    → IsCoalesced (xs ++ (carve last p n b ++ ys))
allocated-IsCoalesced last p n xs b ys f le h =
    let g = given last p n b ys f le in
    rw g.shape (
      IsCoalesced-behind_used xs b ys g.size g.rest h
        (rw g.shape at (carve-IsCoalesced last p n b ys f le (IsCoalesced-behind xs (b ∷ ys) h))))

coalesce-IsCoalesced : (b : Block) (ys : List Block) → IsCoalesced ys → IsCoalesced (coalesce b ys)
coalesce-IsCoalesced b [] h = rw coalesce-nil tt
coalesce-IsCoalesced b (c ∷ bs) h = elim (Bool-cases c.free) [
  | inl e ↦ rw (coalesce-free b c bs e) (
      coalesce-IsCoalesced (record b { subblocks = b.subblocks + (c.subblocks + 1) }) bs
        (IsCoalesced-tail c bs h))
  | inr e ↦ rw (coalesce-used b c bs e) (ground (arith, e), h)
]

record Headed (b : Block) (bs : List Block) : Type 0 where
  head : Block
  rest : List Block
  shape : bs ≡ head ∷ rest
  same : head.free ≡ b.free

coalesce-Headed : (b : Block) (ys : List Block) → Headed b (coalesce b ys)
coalesce-Headed b [] = rw coalesce-nil (record { head = b; rest = []; shape = refl; same = refl })
coalesce-Headed b (c ∷ bs) = elim (Bool-cases c.free) [
  | inl e ↦ rw (coalesce-free b c bs e) (
      let r = coalesce-Headed (record b { subblocks = b.subblocks + (c.subblocks + 1) }) bs in
      record { head = r.head; rest = r.rest; shape = r.shape; same = r.same })
  | inr e ↦
      rw (coalesce-used b c bs e) (record { head = b; rest = c ∷ bs; shape = refl; same = refl })
]

release-Headed :
    (c : Block) (xs : List Block) (b : Block) (ys : List Block) → Headed c (release (c ∷ xs) b ys)
release-Headed c [] b ys = elim (Bool-cases c.free) [
  | inl e ↦ rw (release-free c b ys e) (coalesce-Headed c (unused b.subblocks ∷ ys))
  | inr e ↦
      rw (release-used c b ys e)
        (record { head = c; rest = coalesce (unused b.subblocks) ys; shape = refl; same = refl })
]
release-Headed c (d ∷ xs) b ys =
    rw release-cons (record { head = c; rest = release (d ∷ xs) b ys; shape = refl; same = refl })

IsCoalesced-cons :
    (c d : Block) (zs : List Block)
    → (c.free && d.free) ≡ false
    → Headed d zs
    → IsCoalesced zs
    → IsCoalesced (c ∷ zs)
IsCoalesced-cons c d zs f h k = rw h.shape (ground (arith, f, h.same), rw h.shape at k)

-- A release leaves no two free neighbours.
pub release-IsCoalesced :
    (xs : List Block) (b : Block) (ys : List Block)
    → IsCoalesced (xs ++ b ∷ ys)
    → IsCoalesced (release xs b ys)
release-IsCoalesced [] b ys h =
    rw release-nil (coalesce-IsCoalesced (unused b.subblocks) ys (IsCoalesced-tail b ys h))
release-IsCoalesced (c ∷ []) b ys h =
    let tail = IsCoalesced-tail b ys h.1 in
    elim (Bool-cases c.free) [
      | inl e ↦
          rw (release-free c b ys e, coalesce-free c (unused b.subblocks) ys refl)
            (coalesce-IsCoalesced (record c { subblocks = c.subblocks + (b.subblocks + 1) }) ys
              tail)
      | inr e ↦ rw (release-used c b ys e) (
          IsCoalesced-cons c (unused b.subblocks) (coalesce (unused b.subblocks) ys)
            (ground (arith, e)) (coalesce-Headed (unused b.subblocks) ys)
            (coalesce-IsCoalesced (unused b.subblocks) ys tail))
    ]
release-IsCoalesced (c ∷ d ∷ xs) b ys h = rw release-cons (
    IsCoalesced-cons c d (release (d ∷ xs) b ys) h.0 (release-Headed d xs b ys)
      (release-IsCoalesced (d ∷ xs) b ys h.1))

-- Where no two free blocks are neighbours, freeing a block that was carved out of a free one
-- restores the row.
release-restores :
    (xs : List Block) (b : Block) (ys : List Block) (n : ℕ) (ws : List Block)
    → b.free ≡ true
    → IsCoalesced (xs ++ b ∷ ys)
    → coalesce (unused n) ws ≡ b ∷ ys
    → release xs (used n) ws ≡ xs ++ b ∷ ys
release-restores [] b ys n ws f h back = rw release-nil back
release-restores (c ∷ []) b ys n ws f h back =
    let e : c.free ≡ false = ground (arith, h.0, f) in
    rw (release-used c (used n) ws e) (ap (λ t. c ∷ t) back)
release-restores (c ∷ d ∷ xs) b ys n ws f h back =
    rw release-cons (ap (λ t. c ∷ t) (release-restores (d ∷ xs) b ys n ws f h.1 back))

-- The row after an allocation, as the blocks before, the block given away and those behind.
pub record Restorable (last p n : ℕ) (xs : List Block) (b : Block) (ys : List Block) : Type 0 where
  pub size : ℕ
  pub rest : List Block
  pub shape : xs ++ (carve last p n b ++ ys) ≡ xs ++ used size ∷ rest
  pub restored : release xs (used size) rest ≡ xs ++ b ∷ ys

pub carve-Restorable :
    (last p n : ℕ) (xs : List Block) (b : Block) (ys : List Block)
    → b.free ≡ true
    → n ≤ b.subblocks
    → IsCoalesced (xs ++ b ∷ ys)
    → Restorable last p n xs b ys
carve-Restorable last p n xs b ys f le h =
    let g = given last p n b ys f le in
    record {
      size = g.size;
      rest = g.rest;
      shape = ap (λ t. xs ++ t) g.shape;
      restored =
          release-restores xs b ys g.size g.rest f h (g.back (IsCoalesced-behind xs (b ∷ ys) h));
    }
