-- ===== src/Kernel/Gdt/Decode.antt =====
-- Segment descriptors as the processor reads them.
use bunos.Prelude.{
  ℕ, ◌+◌, ◌-◌, ◌*◌, ◌/◌, ◌%◌, ◌^◌, ◌<◌, ◌≤◌, ◌≡◌, ◌≢◌, refl, ap, ◌∙◌, Bool, true, false, ◌&&◌, List,
  [], ◌∷◌, ok, panic, arith, ltb, leb, ◌==◌, if◌then◌else◌, ◌⊎◌, inl, inr, Bool-cases, bit_and,
  bit_or, bit_and-split, bit_and-ones, bit_and-zero, get_or, holds_below, holds_below_lem,
}
use bunos.Kernel.Gdt.{GdtEntry, encode}

-- Byte `i` of a descriptor.
abbrev pub byte : List ℕ → ℕ → ℕ
byte d i = get_or d i 0

-- The base; the limit, in pages where the granularity bit is set; and the access byte.
abbrev pub decode_base : List ℕ → ℕ
decode_base d = byte d 2 + (byte d 3 + (byte d 4 + byte d 7 * 2 ^ 8) * 2 ^ 8) * 2 ^ 8

abbrev pub decode_limit : List ℕ → ℕ
decode_limit d =
    let raw = byte d 0 + (byte d 1 + byte d 6 % 16 * 2 ^ 8) * 2 ^ 8 in
    if leb 128 (byte d 6) then raw * 2 ^ 12 + 0xFFF else raw

low_bits : (a : ℕ) → bit_and a 0xFFF ≡ a % 2 ^ 12
low_bits a =
    let whole : a ≡ a / 2 ^ 12 * 2 ^ 12 + a % 2 ^ 12 = omega arith in
    let parts =
      bit_and-split 12 (a / 2 ^ 12) 0 (a % 2 ^ 12) (2 ^ 12 - 1) (omega arith) (omega arith) in
    let ones = bit_and-ones 12 (a % 2 ^ 12) (omega arith) in
    let zeros = bit_and-zero (a / 2 ^ 12) in
    ap (λ x. bit_and x 0xFFF) whole ∙ omega (arith, parts, ones, zeros)

or_check : ℕ → Bool
or_check n = bit_or 0xC0 n == 0xC0 + n && bit_or 0x40 n == 0x40 + n

or_all : holds_below or_check 16 ≡ true
unfolding holds_below or_check
or_all = refl

or_nibble : (n : ℕ) → n < 16 → (bit_or 0xC0 n ≡ 0xC0 + n) × (bit_or 0x40 n ≡ 0x40 + n)
unfolding or_check
or_nibble n h =
    let t = holds_below_lem or_check 16 or_all n h in (ground (arith, t), ground (arith, t))

-- What the processor reads from the bytes of an entry.
abbrev pub Reads : List ℕ → GdtEntry → Type 0
Reads d e = (decode_base d ≡ e.base) × (decode_limit d ≡ e.limit) × (byte d 5 ≡ e.flags)

abbrev described : GdtEntry → ℕ → ℕ → List ℕ
described e limit granularity =
    limit % 256
    ∷ limit / 2 ^ 8 % 256
    ∷ e.base % 256
    ∷ e.base / 2 ^ 8 % 256
    ∷ e.base / 2 ^ 16 % 256
    ∷ e.flags
    ∷ bit_or granularity (limit / 2 ^ 16 % 16)
    ∷ e.base / 2 ^ 24 % 256
    ∷ []

-- An entry whose limit is at most 65536, or fills its last page, has an encoding, from which the
-- processor reads the same base, limit and flags.
pub encode-decode :
    (e : GdtEntry)
    → e.base < 2 ^ 32
    → e.limit < 2 ^ 32
    → (e.limit ≤ 65536) ⊎ (e.limit % 2 ^ 12 ≡ 0xFFF)
    → (d : List ℕ) × (encode e ≡ ok d) × Reads d e
unfolding encode
encode-decode e base limit fits =
    let low = low_bits e.limit in
    let b : e.base % 256
          + (e.base / 2 ^ 8 % 256 + (e.base / 2 ^ 16 % 256 + e.base / 2 ^ 24 % 256 * 2 ^ 8) * 2 ^ 8)
            * 2 ^ 8
        ≡ e.base =
      omega arith in
    elim (Bool-cases (ltb 65536 e.limit)) [
      | inr small ↦
          let within : e.limit ≤ 65536 = ground arith in
          let (_, o) = or_nibble (e.limit / 2 ^ 16 % 16) (omega arith) in
          let fine : leb 128 (0x40 + e.limit / 2 ^ 16 % 16) ≡ false = ground arith in
          let raw : e.limit % 256
                + (e.limit / 2 ^ 8 % 256 + (0x40 + e.limit / 2 ^ 16 % 16) % 16 * 2 ^ 8) * 2 ^ 8
              ≡ e.limit =
            omega arith in
          (described e e.limit 0x40, rw small, (b, rw (o, fine) raw, refl))
      | inl large ↦
          let full : e.limit % 2 ^ 12 ≡ 0xFFF = ground (arith, large) in
          let accepted : (bit_and e.limit 0xFFF == 0xFFF) ≡ true = ground (arith, low) in
          let limit' = e.limit / 2 ^ 12 in
          let (o, _) = or_nibble (limit' / 2 ^ 16 % 16) (omega arith) in
          let coarse : leb 128 (0xC0 + limit' / 2 ^ 16 % 16) ≡ true = ground arith in
          let raw : (limit' % 256
                    + (limit' / 2 ^ 8 % 256 + (0xC0 + limit' / 2 ^ 16 % 16) % 16 * 2 ^ 8) * 2 ^ 8)
                  * 2 ^ 12
                + 0xFFF
              ≡ e.limit =
            omega arith in
          (described e limit' 0xC0, rw (large, accepted), (b, rw (o, coarse) raw, refl))
    ]

-- Every other limit is refused.
pub encode-refused : (e : GdtEntry) → 65536 < e.limit → e.limit % 2 ^ 12 ≢ 0xFFF → encode e ≡ panic
unfolding encode
encode-refused e large partial =
    let low = low_bits e.limit in
    let over : ltb 65536 e.limit ≡ true = ground arith in
    let refused : (bit_and e.limit 0xFFF == 0xFFF) ≡ false = ground (arith, low) in
    rw (over, refused)
