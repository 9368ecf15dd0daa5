-- ===== src/Bustd/Bitfield/Update.antt =====
-- `replace` against `at`.
use bunos.Prelude.{
  ℕ, ◌*◌, ◌/◌, ◌%◌, ◌^◌, ◌≤◌, ◌<◌, ◌≡◌, ap, sym, ◌∙◌, Bool, true, false, some, List, ok, length,
  get_elem?, set, leb, ◌==◌, ◌!=◌, if◌then◌else◌, bit_and, arith, Bool-cases, inl, inr,
  get_elem?-some, get_elem?-set_self, get_elem?-set_ne, length-set,
}
use bunos.Libc.Memory.Copy.{store_ok}
use bunos.Bustd.Bitfield.{at, replace, with_bit}
use bunos.Bustd.Bitfield.Bit.{bit_and-with_bit}

pub record IsBits (size : ℕ) (data_ : List ℕ) : Type 0 where
  pub enough : size ≤ 8 * length data_
  pub bytes : (k x : ℕ) → get_elem? data_ k ≡ some x → x < 256

module _ (size : ℕ) {data_ : List ℕ} (b : IsBits size data_) where
  at_byte :
      (j x : ℕ) (data' : List ℕ)
      → j < size
      → get_elem? data' (j / 8) ≡ some x
      → at size data' j ≡ ok (bit_and x (2 ^ (j % 8)) != 0)
  unfolding at
  at_byte j x data' h e = let c : leb j size ≡ true = ground arith in rw (c, e)

  -- Below its size a bit field answers and can be written: `replace` returns the bit's old value,
  -- the bit then has the new one, and every other bit is as it was.
  pub replace_lem :
      (i : ℕ) (v : Bool)
      → i < size
      → (old : Bool) × (data' : List ℕ) × (at size data_ i ≡ ok old)
        × (replace size data_ i v ≡ ok (old, data'))
        × IsBits size data'
        × ((j : ℕ) → j < size → at size data' j ≡ (if i == j then ok v else at size data_ j))
  unfolding replace
  replace_lem i v h =
      let (x, ex) = get_elem?-some data_ (i / 8) (omega (arith, b.enough)) in
      let small = b.bytes (i / 8) x ex in
      let c : leb i size ≡ true = ground arith in
      let y = with_bit x (i % 8) v in
      let data' = set data_ (i / 8) y in
      let room : i / 8 < length data_ = omega (arith, b.enough) in
      (
        bit_and x (2 ^ (i % 8)) != 0,
        data',
        at_byte i x data_ h ex,
        rw (c, ex, store_ok data_ (i / 8) y room),
        record {
          enough = rw (length-set data_ (i / 8) y) b.enough;
          bytes = λ k z e. elim (Bool-cases (i / 8 == k)) [
            | inl t ↦
                let same : i / 8 ≡ k = ground (arith, t) in
                let at_y =
                  ap (get_elem? data') (sym same) ∙ get_elem?-set_self data_ (i / 8) y room in
                let z_y : z ≡ y = cc in
                rw z_y (bit_and-with_bit x (i % 8) 0 v small (omega arith) (omega arith)).1
            | inr t ↦ b.bytes k z (sym (get_elem?-set_ne data_ (i / 8) k y (ground (arith, t))) ∙ e)
          ];
        },
        λ j hj. elim (Bool-cases (i / 8 == j / 8)) [
          | inl t ↦
              let same : i / 8 ≡ j / 8 = ground (arith, t) in
              let at_y =
                ap (get_elem? data') (sym same) ∙ get_elem?-set_self data_ (i / 8) y room in
              let at_x : get_elem? data_ (j / 8) ≡ some x = ap (get_elem? data_) (sym same) ∙ ex in
              let bit =
                (bit_and-with_bit x (i % 8) (j % 8) v small (omega arith) (omega arith)).0 in
              elim (Bool-cases (i == j)) [
                | inl eq ↦
                    let low : (i % 8 == j % 8) ≡ true = ground (arith, eq) in
                    rw (eq, at_byte j y data' hj at_y, bit, low)
                | inr ne ↦
                    let low : (i % 8 == j % 8) ≡ false = ground (arith, ne, same) in
                    rw (ne, at_byte j y data' hj at_y, at_byte j x data_ hj at_x, bit, low)
              ]
          | inr t ↦
              let (z, ez) = get_elem?-some data_ (j / 8) (omega (arith, b.enough)) in
              let ne : (i == j) ≡ false = ground (arith, t) in
              let kept = get_elem?-set_ne data_ (i / 8) (j / 8) y (ground (arith, t)) in
              rw (ne, at_byte j z data' hj (kept ∙ ez), at_byte j z data_ hj ez)
        ],
      )
