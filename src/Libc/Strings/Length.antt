-- ===== src/Libc/Strings/Length.antt =====
-- The length of a string, and its copy.
use bunos.Prelude.{
  ℕ, ◌<◌, ◌≡◌, ◌≢◌, refl, ap, sym, false, List, [], ◌∷◌, ◌++◌, ok, arith, length, take, drop, set,
  overwrite, length-overwrite, overwrite-nil, length-append, ◌==◌, take-append_exact,
}
use bunos.Libc.Memory.Copy.{memcpy_lem, store_ok}
use bunos.Libc.Strings.{strlen, strcpy}

-- The characters of a string: bytes, none of them 0.
pub data IsText : List ℕ → Type 0 where
  empty : IsText []
  char : {c : ℕ} {s : List ℕ} → c ≢ 0 → c < 256 → IsText s → IsText (c ∷ s)

-- `strlen` returns the number of characters before the first 0, whatever follows it.
pub strlen_lem : {s : List ℕ} (after : List ℕ) → IsText s → strlen (s ++ 0 ∷ after) ≡ ok (length s)
unfolding strlen
strlen_lem after empty = refl
strlen_lem {s = c ∷ s} after (char ne b t) =
    let e : (c == 0) ≡ false = ground arith in rw (e, strlen_lem after t) (ap ok (omega arith))

-- The characters, and then the 0 behind them.
overwrite-snoc :
    (dest s : List ℕ) (x : ℕ)
    → length s < length dest
    → set (overwrite dest 0 s) (length s) x ≡ overwrite dest 0 (s ++ (x ∷ []))
overwrite-snoc [] s x h = absurd (omega arith)
overwrite-snoc (d ∷ dest) [] x h = ap (λ t. x ∷ t) (sym (overwrite-nil dest 0))
overwrite-snoc (d ∷ dest) (c ∷ s) x h = ap (λ t. c ∷ t) (overwrite-snoc dest s x (omega arith))

-- With room for the string and its 0, `strcpy` returns, and stores both at the front of the
-- destination, whose other bytes are as they were.
pub strcpy_lem :
    {s : List ℕ} (dest after : List ℕ)
    → IsText s
    → length s < length dest
    → strcpy dest (s ++ 0 ∷ after) ≡ ok (overwrite dest 0 (s ++ (0 ∷ [])))
unfolding strcpy
strcpy_lem {s = s} dest after t room =
    let n = length s in
    let copied =
      memcpy_lem dest 0 (s ++ 0 ∷ after) 0 n (omega arith)
        (omega (arith, length-append s (0 ∷ after))) in
    let part : take n (drop 0 (s ++ 0 ∷ after)) ≡ s = take-append_exact n s (0 ∷ after) refl in
    let stored = store_ok (overwrite dest 0 s) n 0 (omega (arith, length-overwrite {0} dest 0 s)) in
    rw (strlen_lem after t, copied, part, stored, overwrite-snoc dest s 0 room)
