-- ===== src/Kernel/Gdt/Tests.antt =====
-- The descriptor of the kernel's code segment.
use bunos.Prelude.{ℕ, ◌≡◌, refl, inr, List, [], ◌∷◌, ok, arith}
use bunos.Kernel.Gdt.{GdtEntry, encode, write_gdt_data, setup_gdt}
use bunos.Kernel.Gdt.Decode.{Reads, encode-decode}

abbrev code : GdtEntry
code = record { base = 0; limit = 0xFFFFFFFF; flags = 0x9A }

encode-decode_example : (d : List ℕ) × (encode code ≡ ok d) × Reads d code
encode-decode_example = encode-decode code (omega arith) (omega arith) (inr refl)

setup_gdt_run :
    setup_gdt
    ≡ ok (
        0 ∷ 0 ∷ 0 ∷ 0 ∷ 0 ∷ 0 ∷ 0x40 ∷ 0 ∷ 0xFF ∷ 0xFF ∷ 0 ∷ 0 ∷ 0 ∷ 0x9A ∷ 0xCF ∷ 0 ∷ 0xFF ∷ 0xFF
        ∷ 0 ∷ 0 ∷ 0 ∷ 0x92 ∷ 0xCF ∷ 0 ∷ 0xFF ∷ 0xFF ∷ 0 ∷ 0 ∷ 0 ∷ 0xFA ∷ 0xCF ∷ 0 ∷ 0xFF ∷ 0xFF ∷ 0
        ∷ 0 ∷ 0 ∷ 0xF2 ∷ 0xCF ∷ 0 ∷ [])
unfolding setup_gdt write_gdt_data encode
setup_gdt_run = refl
