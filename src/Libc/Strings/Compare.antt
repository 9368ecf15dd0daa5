-- ===== src/Libc/Strings/Compare.antt =====
-- What the comparisons tell apart.
use bunos.Prelude.{
  ℕ, zero, suc, ◌≡◌, ◌↔◌, refl, ap, ap₂, drop, get_or, List, ◌∷◌, ◌++◌, ok, arith, length, ltb,
  Bool-cases, inl, inr,
}
use bunos.Libc.Strings.{Sign, less, same, greater, signed, memcmp, strcmp, strncmp}
use bunos.Libc.Strings.Length.{IsText, empty, char, strlen_lem}

-- `strncmp` never looks behind the first character: two strings that begin with the same one
-- compare as the same, whatever follows and however many characters are to be compared.
pub strncmp_first : (c : ℕ) (lhs rhs : List ℕ) (n : ℕ) → strncmp (c ∷ lhs) (c ∷ rhs) n ≡ ok same
unfolding strncmp
strncmp_first c lhs rhs zero = refl
strncmp_first c lhs rhs (suc n) = ground (arith, strncmp_first c lhs rhs n)

memcmp_lem :
    {s t : List ℕ} (a b : List ℕ)
    → IsText s
    → IsText t
    → length s ≡ length t
    → (sign : Sign) × (memcmp (s ++ a) (t ++ b) (length s) ≡ ok sign) × ((sign ≡ same) ↔ (s ≡ t))
unfolding memcmp signed
memcmp_lem a b empty empty e = (same, refl, (λ _. refl, λ _. refl))
memcmp_lem a b empty (char ne h v) e = absurd (omega arith)
memcmp_lem a b (char ne h u) empty e = absurd (omega arith)
memcmp_lem {s = c ∷ s} {t = d ∷ t} a b (char ne h u) (char ne' h' v) e =
    elim (Bool-cases (ltb (signed c) (signed d))) [
      | inl l ↦ (less, rw l, (λ p. cc, λ p. ground (arith, ap (λ l. get_or l 0 0) p)))
      | inr nl ↦ elim (Bool-cases (ltb (signed d) (signed c))) [
        | inl g ↦ (greater, rw (nl, g), (λ p. cc, λ p. ground (arith, ap (λ l. get_or l 0 0) p)))
        | inr ng ↦
            let (sign, r, both) = memcmp_lem a b u v (omega arith) in
            let first : c ≡ d = ground arith in
            (
              sign,
              rw (nl, ng, r),
              (λ p. ap₂ (λ x xs. x ∷ xs) first (both.0 p), λ p. both.1 (ap (drop 1) p)),
            )
      ]
    ]

-- On two strings `strcmp` returns, and says that they are the same exactly when their characters
-- are the same.
pub strcmp_lem :
    {s t : List ℕ} (a b : List ℕ)
    → IsText s
    → IsText t
    → (sign : Sign) × (strcmp (s ++ 0 ∷ a) (t ++ 0 ∷ b) ≡ ok sign) × ((sign ≡ same) ↔ (s ≡ t))
unfolding strcmp
strcmp_lem {s = s} {t = t} a b u v = elim (Bool-cases (ltb (length s) (length t))) [
  | inl l ↦
      (less, rw (strlen_lem a u, strlen_lem b v, l), (λ p. cc, λ p. ground (arith, ap length p)))
  | inr nl ↦ elim (Bool-cases (ltb (length t) (length s))) [
    | inl g ↦ (
      greater,
      rw (strlen_lem a u, strlen_lem b v, nl, g),
      (λ p. cc, λ p. ground (arith, ap length p)),
    )
    | inr ng ↦
        let (sign, r, both) = memcmp_lem (0 ∷ a) (0 ∷ b) u v (ground arith) in
        (sign, rw (strlen_lem a u, strlen_lem b v, nl, ng, r), both)
  ]
]
