-- ===== src/Libc/Memory/Tests.antt =====
-- The block functions on small arrays.
use bunos.Prelude.{◌≡◌, [], ◌∷◌, ok, arith, inl}
use bunos.Libc.Memory.{memmove}
use bunos.Libc.Memory.Move.{memmove_lem}

memmove_lem_example : memmove (1 ∷ 2 ∷ 3 ∷ 4 ∷ []) 0 1 3 ≡ ok (2 ∷ 3 ∷ 4 ∷ 4 ∷ [])
memmove_lem_example =
    memmove_lem (1 ∷ 2 ∷ 3 ∷ 4 ∷ []) 0 1 3 (omega arith) (omega arith) (omega arith)
      (inl (omega arith))
