-- ===== src/Bustd/Bitfield/Tests.antt =====
-- A field of ten bits.
use bunos.Prelude.{zero, suc, get_elem?, some, ℕ, ◌<◌, ◌≡◌, [], ◌∷◌, arith}
use bunos.Bustd.Bitfield.Update.{IsBits}

ten : IsBits 10 (0xFF ∷ 1 ∷ [])
ten = record { enough = omega arith; bytes = below }
  where
    below : (k x : ℕ) → get_elem? (0xFF ∷ 1 ∷ []) k ≡ some x → x < 256
    below zero x e = ground (arith, e)
    below (suc zero) x e = ground (arith, e)
    below (suc (suc k)) x e = cc
