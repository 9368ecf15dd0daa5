-- ===== src/Kernel/Ext2/Paths.antt =====
-- How get_inode_at_path splits a path.
use bunos.Prelude.{
  ℕ, suc, ◌+◌, ◌-◌, ◌≡◌, ◌≢◌, refl, sym, ap, ◌∙◌, Bool-cases, inl, inr, List, [], ◌∷◌, ◌++◌, arith,
  ◌==◌, length, take, drop, take-append_exact, append_assoc, drop-drop, length-append,
}
use bunos.Kernel.Ext2.{split_path}

-- A slash and the bytes of a segment, for each of them.
unfoldable pub slashed : List (List ℕ × ℕ) → List ℕ
slashed [] = []
slashed ((bytes, len) ∷ segments) = 0x2F ∷ (take len bytes ++ slashed segments)

pub data NoSlash : List ℕ → Type 0 where
  empty : NoSlash []
  char : {c : ℕ} {cs : List ℕ} → c ≢ 0x2F → NoSlash cs → NoSlash (c ∷ cs)

pub data Segments : List (List ℕ × ℕ) → Type 0 where
  last : Segments []
  segment :
      {bytes : List ℕ} {len : ℕ} {segments : List (List ℕ × ℕ)}
      → NoSlash (take len bytes)
      → Segments segments
      → Segments ((bytes, len) ∷ segments)

NoSlash-snoc : {c : ℕ} {cs : List ℕ} → NoSlash cs → c ≢ 0x2F → NoSlash (cs ++ c ∷ [])
NoSlash-snoc empty ne = char ne empty
NoSlash-snoc (char ne' more) ne = char ne' (NoSlash-snoc more ne)

drop-append_char : (xs : List ℕ) (c : ℕ) (ys : List ℕ) → drop (length xs + 1) (xs ++ c ∷ ys) ≡ ys
drop-append_char [] c ys = refl
drop-append_char (x ∷ xs) c ys =
    let e : suc (length xs) + 1 ≡ suc (length xs + 1) = omega arith in
    rw e (drop-append_char xs c ys)

split_path_parts :
    (whole : List ℕ) (last_index i : ℕ) (mid cs : List ℕ)
    → drop last_index whole ≡ mid ++ cs
    → i ≡ last_index + length mid
    → NoSlash mid
    → (slashed (split_path whole last_index i cs) ≡ 0x2F ∷ (mid ++ cs))
      × Segments (split_path whole last_index i cs)
unfolding split_path slashed
split_path_parts whole last_index i mid [] at here plain =
    let n : length mid ≡ i - last_index = omega arith in
    let t : take (i - last_index) (mid ++ []) ≡ mid = take-append_exact _ mid [] n in
    (rw (at, t), segment (rw (at, t) plain) last)
split_path_parts whole last_index i mid (c ∷ cs) at here plain = elim (Bool-cases (c == 0x2F)) [
  | inl slash ↦
      let n : length mid ≡ i - last_index = omega arith in
      let e : c ≡ 0x2F = ground arith in
      let t : take (i - last_index) (mid ++ c ∷ cs) ≡ mid = take-append_exact _ mid (c ∷ cs) n in
      let q : i + 1 ≡ last_index + (length mid + 1) = omega (arith, here) in
      let d : drop (i + 1) whole ≡ cs = rw q (
        sym (drop-drop (length mid + 1) last_index whole)
        ∙ ap (drop (length mid + 1)) at
        ∙ drop-append_char mid c cs) in
      let (join, plain') = split_path_parts whole (i + 1) (i + 1) [] cs d (omega arith) empty in
      (rw (slash, at, t, join, e), rw (slash, at) (segment (rw t plain) plain'))
  | inr other ↦
      let ne : c ≢ 0x2F = ground arith in
      let again : (mid ++ c ∷ []) ++ cs ≡ mid ++ (c ∷ cs) = append_assoc mid (c ∷ []) cs in
      let n : i + 1 ≡ last_index + length (mid ++ c ∷ []) =
        omega (arith, length-append mid (c ∷ [])) in
      let (join, plain') =
        split_path_parts whole last_index (i + 1) (mid ++ c ∷ []) cs (at ∙ sym again) n
          (NoSlash-snoc plain ne) in
      (rw other (join ∙ ap (λ l. 0x2F ∷ l) again), rw other plain')
]

-- Splitting loses nothing: a slash before each segment gives back the path with a slash before it,
-- and no segment holds a slash.
pub split_path_lem :
    (path : List ℕ)
    → (slashed (split_path path 0 0 path) ≡ 0x2F ∷ path) × Segments (split_path path 0 0 path)
split_path_lem path = split_path_parts path 0 0 [] path refl refl empty
