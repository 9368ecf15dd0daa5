-- ===== src/Kernel/Gdt.antt =====
-- kernel/x86/gdt.cpp: the encoding of segment descriptors into eight bytes. The table of the flat
-- segments is a list of entries; loading it is assembly.
pub mod Decode
mod Tests
use bunos.Prelude.{
  ℕ, ◌+◌, ◌*◌, ◌/◌, ◌%◌, ◌^◌, Bool, true, false, not, ◌&&◌, List, [], ◌∷◌, ◌++◌, Result, ok, ◌>>=◌,
  ◌>>◌, check, ltb, ◌==◌, if◌then◌else◌, bit_and, bit_or,
}

pub record GdtEntry : Type 0 where
  pub base : ℕ
  pub limit : ℕ
  pub flags : ℕ

-- The body of the loop of `write_gdt_data`: the eight bytes at `target`.
unfoldable pub encode : GdtEntry → Result (List ℕ)
encode source = do
  check (not (ltb 65536 source.limit && not (bit_and source.limit 0xFFF == 0xFFF)))
  let limit = if ltb 65536 source.limit then source.limit / 2 ^ 12 else source.limit
  let granularity = if ltb 65536 source.limit then 0xC0 else 0x40
  ok (
      limit % 256
      ∷ limit / 2 ^ 8 % 256
      ∷ source.base % 256
      ∷ source.base / 2 ^ 8 % 256
      ∷ source.base / 2 ^ 16 % 256
      ∷ source.flags
      ∷ bit_or granularity (limit / 2 ^ 16 % 16)
      ∷ source.base / 2 ^ 24 % 256
      ∷ [])

unfoldable pub write_gdt_data : List GdtEntry → Result (List ℕ)
unfolding encode
write_gdt_data [] = ok []
write_gdt_data (e ∷ entries) = do
  bytes ← encode e
  rest ← write_gdt_data entries
  ok (bytes ++ rest)

abbrev flat : ℕ → GdtEntry
flat flags = record { base = 0; limit = 0xFFFFFFFF; flags = flags }

-- The entries of `setup_gdt`.
abbrev pub gdt : List GdtEntry
gdt = record { base = 0; limit = 0; flags = 0 } ∷ flat 0x9A ∷ flat 0x92 ∷ flat 0xFA ∷ flat 0xF2 ∷ []

unfoldable pub setup_gdt : Result (List ℕ)
unfolding write_gdt_data
setup_gdt = write_gdt_data gdt
