-- ===== src/Kernel/Ext2/Find.antt =====
-- Looking a name up in a directory: find_file_in_directory with its callback, and the path that
-- get_inode_at_path splits.
use bunos.Prelude.{
  ℕ, zero, suc, ◌<◌, ◌≡◌, ◌≢◌, refl, Bool, true, false, ◌&&◌, ◌||◌, List, [], ◌∷◌, Result, ok,
  ◌>>=◌, arith, ◌==◌, ◌!=◌, if◌then◌else◌, Bool-cases, inl, inr, get_or,
}
use bunos.Libc.Strings.{same, signed, strncmp}
use bunos.Libc.Strings.Compare.{strncmp_first}
use bunos.Kernel.Ext2.{
  Ext2, Inode, DirectoryEntry, is_directory, compare_name, find_file_in_directory,
}
use bunos.Kernel.Ext2.Entries.{Blocks, fold, for_each_entry_in_dir_lem}

-- The entry's name counts as the name looked up when it is as long and begins with the same byte.
unfoldable pub counts : List ℕ → ℕ → DirectoryEntry → Bool
counts name len d = len == d.name_len && (len == 0 || get_or d.name 0 0 == get_or name 0 0)

-- The inode of the last entry in use that counts, or `found`.
unfoldable pub last_match : List ℕ → ℕ → List DirectoryEntry → ℕ → ℕ
unfolding counts
last_match name len [] found = found
last_match name len (d ∷ ds) found =
    last_match name len ds (if d.inode != 0 && counts name len d then d.inode else found)

-- Entries whose names have a first byte, as those read from a disk do.
pub data Named : List DirectoryEntry → Type 0 where
  none_left : Named []
  named :
      {d : DirectoryEntry} {ds : List DirectoryEntry} (c : ℕ) (cs : List ℕ)
      → d.name ≡ c ∷ cs
      → c < 256
      → Named ds
      → Named (d ∷ ds)

-- Bytes that differ in the first place are told apart there.
strncmp_differ :
    {A : Type 0} (x y : A) (a b : ℕ) (u v : List ℕ) (k : ℕ)
    → a < 256
    → b < 256
    → a ≢ b
    → (strncmp (a ∷ u) (b ∷ v) (suc k) >>= λ sign. elim sign [ same ↦ ok x | _ ↦ ok y ]) ≡ ok y
unfolding strncmp signed
strncmp_differ x y a b u v k ha hb ne = ground arith

strncmp_same : (a b : ℕ) (u v : List ℕ) (n : ℕ) → a ≡ b → strncmp (a ∷ u) (b ∷ v) n ≡ ok same
strncmp_same a b u v n e = rw e (strncmp_first b u v n)

strncmp_zero : (s t : List ℕ) → strncmp s t 0 ≡ ok same
unfolding strncmp
strncmp_zero s t = refl

compare_names :
    {A : Type 0} (x y : A) (a b : ℕ) (u v : List ℕ) (n : ℕ)
    → a < 256
    → b < 256
    → (strncmp (a ∷ u) (b ∷ v) n >>= λ sign. elim sign [ same ↦ ok x | _ ↦ ok y ])
      ≡ ok (if n == 0 || a == b then x else y)
compare_names x y a b u v zero ha hb = rw (strncmp_zero (a ∷ u) (b ∷ v))
compare_names x y a b u v (suc k) ha hb = elim (Bool-cases (a == b)) [
  | inl eq ↦
      let e : a ≡ b = ground arith in
      let z : (suc k == 0) ≡ false = ground arith in rw (eq, strncmp_same a b u v (suc k) e, z)
  | inr ne ↦
      let d : a ≢ b = ground arith in
      let z : (suc k == 0) ≡ false = ground arith in
      rw (ne, z, strncmp_differ x y a b u v k ha hb d)
]

compare_name_lem :
    (name : List ℕ) (b : ℕ) (len : ℕ) (d : DirectoryEntry) (c : ℕ) (cs : List ℕ) (found : ℕ)
    → d.name ≡ c ∷ cs
    → b < 256
    → c < 256
    → compare_name (b ∷ name) len d found
      ≡ ok (if counts (b ∷ name) len d then (false, d.inode) else (true, found))
unfolding compare_name counts
compare_name_lem name b len d c cs found first hb hc =
    rw first (elim (Bool-cases (len == d.name_len)) [
      | inl eq ↦
          let e : d.name_len ≡ len = ground arith in
          rw (
            eq,
            e,
            compare_names {A = Bool × ℕ} (false, d.inode) (true, found) c b cs name len hc hb,
          )
      | inr ne ↦ rw ne
    ])

-- Find by callback is last_match.
fold-compare_name :
    (name : List ℕ) (b : ℕ) (len : ℕ) (es : List DirectoryEntry) (found : ℕ)
    → Named es
    → b < 256
    → fold (compare_name (b ∷ name) len) es found ≡ ok (last_match (b ∷ name) len es found)
unfolding last_match
fold-compare_name name b len [] found none_left hb = refl
fold-compare_name name b len (d ∷ es) found (named c cs first hc more) hb =
    elim (Bool-cases (d.inode != 0)) [
      | inr free ↦ rw free (fold-compare_name name b len es found more hb)
      | inl used ↦ elim (Bool-cases (counts (b ∷ name) len d)) [
        | inl hit ↦
            rw (used, compare_name_lem name b len d c cs found first hb hc, hit)
              (fold-compare_name name b len es d.inode more hb)
        | inr miss ↦
            rw (used, compare_name_lem name b len d c cs found first hb hc, miss)
              (fold-compare_name name b len es found more hb)
      ]
    ]

-- On a directory whose blocks hold the entries `es`, the lookup of a name returns the inode of the last
-- entry in use that is as long and begins with the same byte, or 0 when there is none.
pub find_file_in_directory_lem :
    (read : ℕ → ℕ → Result (List ℕ)) (e : Ext2) (dir : Inode) (es : List DirectoryEntry) (b : ℕ)
    (name : List ℕ) (len : ℕ)
    → is_directory dir ≡ true
    → Blocks read e dir.indir_block_pointer dir.direct_block_pointers es
    → Named es
    → b < 256
    → find_file_in_directory read e dir (b ∷ name) len ≡ ok (last_match (b ∷ name) len es 0)
unfolding find_file_in_directory
find_file_in_directory_lem read e dir es b name len isdir blocks names hb =
    rw (isdir, for_each_entry_in_dir_lem read e (compare_name (b ∷ name) len) dir es isdir blocks 0)
      (fold-compare_name name b len es 0 names hb)
