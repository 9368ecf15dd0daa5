-- ===== src/Kernel/Interrupts/Masks.antt =====
-- What unmasking does to the masks of the two controllers.
use bunos.Prelude.{
  ℕ, ◌+◌, ◌-◌, ◌/◌, ◌%◌, ◌^◌, ◌<◌, ◌≡◌, ◌≢◌, refl, ap, Bool, true, false, ok, arith, ltb, leb, ◌==◌,
  if◌then◌else◌, ◌&&◌, bit_and, bit_or, holds_below, holds_below_lem,
}
use bunos.Kernel.Interrupts.{Ports, master_imr, slave_imr, unmask_master, unmask_irq}

-- The mask registers: reading one gives the byte last written to it, and nothing else changes it.
pub record HasMasks {S : Type 0} (ports : Ports S) : Type 0 where
  pub mask : ℕ → S → ℕ
  pub is_byte : (port : ℕ) (s : S) → mask port s < 256
  pub read : (port : ℕ) (s : S) → ports.in_u8 port s ≡ (mask port s, s)
  pub written : (port v : ℕ) (s : S) → v < 256 → mask port (ports.out_u8 port v s) ≡ v
  pub others :
      (port other v : ℕ) (s : S) → other ≢ port → mask other (ports.out_u8 port v s) ≡ mask other s

-- Line `k` of a mask.
abbrev pub line : ℕ → ℕ → ℕ
line k mask = mask / 2 ^ k % 2

cleared_test : ℕ → ℕ → ℕ → Bool
cleared_test m irq k =
    let m' = bit_and m (0xFF - 2 ^ irq) in
    ltb m' 256 && line k m' == (if k == irq then 0 else line k m)

cleared_all :
    holds_below (λ m. holds_below (λ irq. holds_below (cleared_test m irq) 8) 8) 256 ≡ true
unfolding holds_below cleared_test
cleared_all = refl

set_test : ℕ → ℕ → ℕ → Bool
set_test m irq k =
    let m' = bit_or m (0xFF - 2 ^ irq) in
    ltb m' 256 && line k m' == (if k == irq then line k m else 1)

set_all : holds_below (λ m. holds_below (λ irq. holds_below (set_test m irq) 8) 8) 256 ≡ true
unfolding holds_below set_test
set_all = refl

byte_test :
    (test : ℕ → ℕ → ℕ → Bool)
    → holds_below (λ m. holds_below (λ irq. holds_below (test m irq) 8) 8) 256 ≡ true
    → (m irq k : ℕ) → m < 256
    → irq < 8
    → k < 8
    → test m irq k ≡ true
byte_test test all m irq k hm hi hk =
    holds_below_lem (test m irq) 8
      (holds_below_lem (λ irq. holds_below (test m irq) 8) 8
        (holds_below_lem (λ m. holds_below (λ irq. holds_below (test m irq) 8) 8) 256 all m hm) irq
        hi)
      k hk

cleared :
    (m irq k : ℕ)
    → m < 256
    → irq < 8
    → k < 8
    → (bit_and m (0xFF - 2 ^ irq) < 256)
      × (line k (bit_and m (0xFF - 2 ^ irq)) ≡ (if k == irq then 0 else line k m))
unfolding cleared_test
cleared m irq k hm hi hk =
    let t = byte_test cleared_test cleared_all m irq k hm hi hk in
    (ground (arith, t), ground (arith, t))

set_others :
    (m irq k : ℕ)
    → m < 256
    → irq < 8
    → k < 8
    → (bit_or m (0xFF - 2 ^ irq) < 256)
      × (line k (bit_or m (0xFF - 2 ^ irq)) ≡ (if k == irq then line k m else 1))
unfolding set_test
set_others m irq k hm hi hk =
    let t = byte_test set_test set_all m irq k hm hi hk in (ground (arith, t), ground (arith, t))

module _ {S : Type 0} (ports : Ports S) (laws : HasMasks ports) where
  unmask_master_eq :
      (irq : ℕ) (s : S)
      → unmask_master ports irq s
        ≡ ports.out_u8 master_imr (bit_and (laws.mask master_imr s) (0xFF - 2 ^ irq)) s
  unfolding unmask_master
  unmask_master_eq irq s =
      ap (λ r. ports.out_u8 master_imr (bit_and r.0 (0xFF - 2 ^ irq)) r.1) (laws.read master_imr s)

  -- The master's branch clears one line of its mask and leaves the slave's.
  unmask_master_lem :
      (irq : ℕ) (s : S)
      → irq < 8
      → (laws.mask slave_imr (unmask_master ports irq s) ≡ laws.mask slave_imr s)
        × ((k : ℕ)
            → k < 8
            → line k (laws.mask master_imr (unmask_master ports irq s))
              ≡ (if k == irq then 0 else line k (laws.mask master_imr s)))
  unmask_master_lem irq s below =
      let m = laws.mask master_imr s in
      let byte = (cleared m irq 0 (laws.is_byte master_imr s) below (omega arith)).0 in
      (
        rw (unmask_master_eq irq s)
            (laws.others master_imr slave_imr _ s (λ e. absurd (omega (arith, e)))),
        λ k hk.
            rw (unmask_master_eq irq s, laws.written master_imr (bit_and m (0xFF - 2 ^ irq)) s byte)
              ((cleared m irq k (laws.is_byte master_imr s) below hk).1),
      )

  -- For a line of the master, `unmask_irq` returns, lets that line through, and leaves every other line
  -- of both controllers as it was.
  pub unmask_irq_master :
      (irq : ℕ) (s : S)
      → irq < 8
      → (s' : S) × (unmask_irq ports irq s ≡ ok s')
        × (laws.mask slave_imr s' ≡ laws.mask slave_imr s)
        × ((k : ℕ)
            → k < 8
            → line k (laws.mask master_imr s')
              ≡ (if k == irq then 0 else line k (laws.mask master_imr s)))
  unfolding unmask_irq
  unmask_irq_master irq s below =
      let (kept, lines) = unmask_master_lem irq s below in
      let inside : ltb irq 16 ≡ true = ground arith in
      let master : leb 8 irq ≡ false = ground arith in
      (unmask_master ports irq s, rw (inside, master), kept, lines)

  -- For a line of the slave, `unmask_irq` returns and lets the master's line 2 through, but leaves the
  -- line itself as it was and masks all other lines of the slave.
  pub unmask_irq_slave :
      (irq : ℕ) (s : S)
      → irq < 8
      → (s' : S) × (unmask_irq ports (8 + irq) s ≡ ok s')
        × ((k : ℕ)
            → k < 8
            → line k (laws.mask master_imr s')
              ≡ (if k == 2 then 0 else line k (laws.mask master_imr s)))
        × ((k : ℕ)
            → k < 8
            → line k (laws.mask slave_imr s')
              ≡ (if k == irq then line k (laws.mask slave_imr s) else 1))
  unfolding unmask_irq
  unmask_irq_slave irq s below =
      let (kept, lines) = unmask_master_lem 2 s (omega arith) in
      let inside : ltb (8 + irq) 16 ≡ true = ground arith in
      let slave : leb 8 (8 + irq) ≡ true = ground arith in
      let number : 8 + irq - 8 ≡ irq = omega arith in
      let s1 = unmask_master ports 2 s in
      let m = laws.mask slave_imr s1 in
      let new = bit_or m (0xFF - 2 ^ irq) in
      let byte = (set_others m irq 0 (laws.is_byte slave_imr s1) below (omega arith)).0 in
      (
        ports.out_u8 slave_imr new s1,
        rw (inside, slave, number, laws.read slave_imr s1),
        λ k hk.
            rw (laws.others slave_imr master_imr new s1 (λ e. absurd (omega (arith, e))))
              (lines k hk),
        λ k hk.
            rw (laws.written slave_imr new s1 byte)
              (rw (← kept) ((set_others m irq k (laws.is_byte slave_imr s1) below hk).1)),
      )
