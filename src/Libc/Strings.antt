-- ===== src/Libc/Strings.antt =====
-- The string functions of libc/string.cpp. A `char *` is the list of the bytes from it on; reading
-- behind the list's end is a fault. A `char` is signed, and given as its byte. The negative,
-- zero and positive results of a comparison are `less`, `same` and `greater`.
pub mod Length
pub mod Compare
mod Tests
use bunos.Prelude.{
  ℕ, zero, suc, ◌+◌, ◌-◌, Bool, ◌&&◌, List, [], ◌∷◌, Result, ok, fault, ◌>>=◌, access, store,
  get_elem?, ltb, ◌==◌, if◌then◌else◌,
}
use bunos.Libc.Memory.{memcpy}

unfoldable pub strlen : List ℕ → Result ℕ
strlen [] = fault
strlen (c ∷ str) = let rest = strlen str in if c == 0 then ok 0 else (do len ← rest; ok (len + 1))

unfoldable pub strcpy : List ℕ → List ℕ → Result (List ℕ)
unfolding strlen
strcpy dest src = do len ← strlen src; dest' ← memcpy dest 0 src 0 len; store dest' len 0

-- The first loop of `strncpy`: the index where it stops, and the array.
copy_chars : List ℕ → List ℕ → ℕ → ℕ → Result (ℕ × List ℕ)
copy_chars dest src zero i = ok (i, dest)
copy_chars dest src (suc k) i = do
  c ← access (get_elem? src i)
  let stop = ok (i, dest)
  let go : Result (ℕ × List ℕ) = do dest' ← store dest i c; copy_chars dest' src k (i + 1)
  if c == 0 then stop else go

-- The second one, from index `i` on.
fill_zeros : List ℕ → ℕ → ℕ → Result (List ℕ)
fill_zeros dest zero i = ok dest
fill_zeros dest (suc k) i = do dest' ← store dest i 0; fill_zeros dest' k (i + 1)

unfoldable pub strncpy : List ℕ → List ℕ → ℕ → Result (List ℕ)
unfolding copy_chars fill_zeros
strncpy dest src n = do (i, dest') ← copy_chars dest src n 0; fill_zeros dest' (n - i) i

pub data Sign : Type 0 where
  less same greater : Sign

-- A signed `char`, moved up by 128: the order is the same.
unfoldable pub signed : ℕ → ℕ
signed c = if ltb c 128 then c + 128 else c - 128

unfoldable pub memcmp : List ℕ → List ℕ → ℕ → Result Sign
memcmp lhs rhs zero = ok same
memcmp [] rhs (suc count) = fault
memcmp (a ∷ lhs) [] (suc count) = fault
memcmp (a ∷ lhs) (b ∷ rhs) (suc count) =
    let rest = memcmp lhs rhs count in
    if ltb (signed a) (signed b)
    then ok less
    else if ltb (signed b) (signed a)
    then ok greater
    else rest

unfoldable pub strcmp : List ℕ → List ℕ → Result Sign
unfolding strlen memcmp
strcmp lhs rhs = do
  len1 ← strlen lhs
  len2 ← strlen rhs
  if ltb len1 len2 then ok less else if ltb len2 len1 then ok greater else memcmp lhs rhs len1

-- The loop does not move the pointers: each round compares the first characters.
unfoldable pub strncmp : List ℕ → List ℕ → ℕ → Result Sign
strncmp lhs rhs zero = ok same
strncmp lhs rhs (suc k) = do
  let rest = strncmp lhs rhs k
  a ← access (get_elem? lhs 0)
  b ← access (get_elem? rhs 0)
  if a == 0 && b == 0
      then ok same
      else if a == 0
      then ok less
      else if b == 0
      then ok greater
      else if ltb (signed a) (signed b)
      then ok less
      else if ltb (signed b) (signed a)
      then ok greater
      else rest
