-- ===== src/Bustd/RingBuffer/Contents.antt =====
-- The bytes that a ring holds, oldest first, and the invariant of its indices.
use bunos.Prelude.{
  ℕ, ◌+◌, ◌-◌, ◌^◌, ◌≤◌, ◌<◌, ◌≡◌, List, none, arith, ltb, if◌then◌else◌, length, get_elem?, get_or,
  tabulate, length-replicate, length-tabulate, get_elem?-tabulate, get_elem?-eq-get_or,
}
use bunos.Bustd.RingBuffer.{Ring, init, remaining_space}

-- Twice the capacity fits `usize`, so that no sum of two indices wraps.
pub record IsValid (n : ℕ) (r : Ring) : Type 0 where
  pub storage : length r.buf ≡ n
  pub small : n ≤ 2 ^ 31
  pub start_in : r.start < n
  pub size_in : r.size ≤ n

abbrev pub wrap : ℕ → ℕ → ℕ
wrap n k = if ltb k n then k else k - n

abbrev pub byte_at : ℕ → Ring → ℕ → ℕ
byte_at n r i = get_or r.buf (wrap n (r.start + i)) 0

unfoldable pub contents : ℕ → Ring → List ℕ
contents n r = tabulate (byte_at n r) 0 r.size

module _ (n : ℕ) where
  pub length-contents : (r : Ring) → length (contents n r) ≡ r.size
  unfolding contents
  length-contents r = length-tabulate (byte_at n r) 0 r.size

  pub get_elem?-contents :
      {r : Ring} (i : ℕ)
      → IsValid n r
      → get_elem? (contents n r) i
        ≡ (if ltb i r.size then get_elem? r.buf (wrap n (r.start + i)) else none)
  unfolding contents
  get_elem?-contents {r} i v = ground (
    arith,
    get_elem?-tabulate (byte_at n r) 0 r.size i,
    get_elem?-eq-get_or r.buf (wrap n (r.start + i)) 0,
  )

  pub remaining_space_lem : {r : Ring} → IsValid n r → remaining_space n r ≡ n - r.size
  unfolding remaining_space
  remaining_space_lem v = omega arith

  pub init-IsValid : 0 < n → n ≤ 2 ^ 31 → IsValid n (init n)
  unfolding init
  init-IsValid pos small = omega (arith, length-replicate {A = ℕ} n 0)
