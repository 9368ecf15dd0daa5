-- ===== src/Kernel/PhysicalPages/Fresh.antt =====
-- A page that is given out was free, and is taken from then on.
use bunos.Prelude.{
  ℕ, zero, suc, ◌+◌, ◌*◌, ◌<◌, ◌≡◌, ◌⊎◌, refl, ap, ◌∙◌, Bool, true, false, List, Result, ok, panic,
  ◌==◌, if◌then◌else◌, arith, inl, inr, u64, Bool-cases,
}
use bunos.Bustd.Bitfield.{at, replace, set_bit}
use bunos.Bustd.Bitfield.Update.{IsBits, replace_lem}
use bunos.Kernel.PhysicalPages.{allocate_loop, allocate_physical_page}

-- What an allocation did: page `i` was the first free one.
pub record Allocated (start : ℕ) (before : List ℕ) (out : Result (ℕ × List ℕ)) : Type 0 where
  pub i : ℕ
  pub after : List ℕ
  pub returned : out ≡ ok (u64 (i * 0x1000 + start), after)
  pub in_range : i < 8192
  pub was_free : at 8192 before i ≡ ok false
  pub first : (j : ℕ) → j < i → at 8192 before j ≡ ok true
  pub now : (j : ℕ) → j < 8192 → at 8192 after j ≡ (if i == j then ok true else at 8192 before j)
  pub valid : IsBits 8192 after

module _ (start : ℕ) {before : List ℕ} (b : IsBits 8192 before) where
  loop_outcome :
      (k i : ℕ)
      → i + k ≡ 8192
      → ((j : ℕ) → j < i → at 8192 before j ≡ ok true)
      → Allocated start before (allocate_loop start before k i)
        ⊎ ((allocate_loop start before k i ≡ panic)
            × ((j : ℕ) → j < 8192 → at 8192 before j ≡ ok true))
  unfolding allocate_loop set_bit
  loop_outcome zero i e used = inr (refl, λ j h. used j (omega arith))
  loop_outcome (suc k) i e used =
      let (old, after, was, done, valid, now) = replace_lem 8192 b i true (omega arith) in
      go old after was done valid now (λ taken. loop_outcome k (i + 1) (omega arith) (λ j h.
        elim (Bool-cases (j == i)) [
          | inl t ↦ let same : j ≡ i = ground (arith, t) in ap (at 8192 before) same ∙ taken
          | inr t ↦ used j (ground (arith, t))
        ]))
    where
      go :
          (old : Bool) (after : List ℕ)
          → at 8192 before i ≡ ok old
          → replace 8192 before i true ≡ ok (old, after)
          → IsBits 8192 after
          → ((j : ℕ) → j < 8192 → at 8192 after j ≡ (if i == j then ok true else at 8192 before j))
          → (at 8192 before i ≡ ok true
              → Allocated start before (allocate_loop start before k (i + 1))
                ⊎ ((allocate_loop start before k (i + 1) ≡ panic)
                    × ((j : ℕ) → j < 8192 → at 8192 before j ≡ ok true)))
          → Allocated start before (allocate_loop start before (suc k) i)
            ⊎ ((allocate_loop start before (suc k) i ≡ panic)
                × ((j : ℕ) → j < 8192 → at 8192 before j ≡ ok true))
      go false after was done valid now next = inl (record {
        i = i;
        after = after;
        returned = rw (was, done);
        in_range = omega arith;
        was_free = was;
        first = used;
        now = now;
        valid = valid;
      })
      go true after was done valid now next = rw was (next was)

  -- On a bit field of 8192 bits the allocation returns the address of the first free page, which is
  -- taken from then on while all others are as they were; it panics only when no page is free.
  pub allocate_physical_page_lem :
      Allocated start before (allocate_physical_page start before)
      ⊎ ((allocate_physical_page start before ≡ panic)
          × ((j : ℕ) → j < 8192 → at 8192 before j ≡ ok true))
  unfolding allocate_physical_page
  allocate_physical_page_lem = loop_outcome 8192 0 refl (λ j h. absurd (omega arith))
