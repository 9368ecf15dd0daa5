-- ===== src/Kernel/Ext2/Entries.antt =====
-- The entries of a directory as they stand on the disk, and what for_each_entry_in_dir does with them.
use bunos.Prelude.{
  ℕ, zero, suc, ◌+◌, ◌^◌, ◌≤◌, ◌<◌, ◌≡◌, ◌≢◌, refl, Bool, true, false, not, ◌||◌, List, [], ◌∷◌,
  ◌++◌, Result, ok, timeout, panic, fault, ◌>>=◌, ◌>>◌, >>=_ext, check, arith, ltb, add32_exact,
  ◌==◌, ◌!=◌, if◌then◌else◌, add32,
}
use bunos.Kernel.Ext2.{
  Ext2, Inode, DirectoryEntry, is_directory, block_index_to_offset, read_directory_entry_from_disk,
  entry_loop, block_loop, for_each_entry_in_dir,
}

module _ {A : Type 0} (func : DirectoryEntry → A → Result (Bool × A)) where
  -- `func` at every entry in use, whatever it answers.
  abbrev pub fold : List DirectoryEntry → A → Result A
  fold [] acc = ok acc
  fold (d ∷ ds) acc = do
    (go_on, acc') ← (if d.inode != 0 then func d acc else ok (true, acc))
    fold ds acc'

  fold-append :
      (ds es : List DirectoryEntry) (acc : A) → fold (ds ++ es) acc ≡ (fold ds acc >>= fold es)
  fold-append [] es acc = refl
  fold-append (d ∷ ds) es acc =
      split (if d.inode != 0 then func d acc else ok (true, acc)) (λ a. fold-append ds es a)
    where
      split :
          (m : Result (Bool × A))
          → ((a : A) → fold (ds ++ es) a ≡ (fold ds a >>= fold es))
          → (m >>= λ r. fold (ds ++ es) r.1) ≡ ((m >>= λ r. fold ds r.1) >>= fold es)
      split timeout each = refl
      split panic each = refl
      split fault each = refl
      split (ok (b, a)) each = each a

module _ (read : ℕ → ℕ → Result (List ℕ)) (e : Ext2) where
  -- The block at `start` holds these entries from an offset on, where the first one is `dir`. The
  -- entry behind the block is read as well.
  pub data EntriesFrom (start : ℕ) : ℕ → DirectoryEntry → List DirectoryEntry → Type 0 where
    behind :
        {offset : ℕ} {dir : DirectoryEntry}
        → e.block_size ≤ offset
        → EntriesFrom start offset dir []
    entry :
        {offset : ℕ} {dir dir' : DirectoryEntry} {es : List DirectoryEntry}
        → offset < e.block_size
        → 0 < dir.rec_len
        → offset + dir.rec_len < 2 ^ 32
        → read_directory_entry_from_disk read e (add32 start (offset + dir.rec_len)) ≡ ok dir'
        → EntriesFrom start (offset + dir.rec_len) dir' es
        → EntriesFrom start offset dir (dir ∷ es)

  -- The blocks that these pointers lead to hold these entries. A pointer of 0 ends the directory; after
  -- the last pointer there must be no indirect one.
  pub data Blocks (indir : ℕ) : List ℕ → List DirectoryEntry → Type 0 where
    all : indir ≡ 0 → Blocks indir [] []
    stop : {p : ℕ} {ps : List ℕ} → block_index_to_offset read e p ≡ 0 → Blocks indir (p ∷ ps) []
    block :
        {p : ℕ} {ps : List ℕ} {dir : DirectoryEntry} {es es' both : List DirectoryEntry}
        → block_index_to_offset read e p ≢ 0
        → read_directory_entry_from_disk read e (block_index_to_offset read e p) ≡ ok dir
        → EntriesFrom (block_index_to_offset read e p) 0 dir es
        → Blocks indir ps es'
        → both ≡ es ++ es'
        → Blocks indir (p ∷ ps) both

  module _ {A : Type 0} (func : DirectoryEntry → A → Result (Bool × A)) where
    entry_loop_lem :
        (fuel start offset : ℕ) (dir : DirectoryEntry) (es : List DirectoryEntry)
        → EntriesFrom start offset dir es
        → e.block_size ≤ fuel + offset
        → (acc : A) → entry_loop read e func fuel start offset dir acc ≡ fold func es acc
    unfolding entry_loop
    entry_loop_lem zero start offset dir es (behind far) enough acc =
        let t : ltb offset e.block_size ≡ false = ground (arith, far) in rw t
    entry_loop_lem (suc fuel) start offset dir es (behind far) enough acc =
        let t : ltb offset e.block_size ≡ false = ground (arith, far) in rw t
    entry_loop_lem zero start offset dir es (entry near step small next more) enough acc =
        absurd (omega arith)
    entry_loop_lem (suc fuel) start offset dir (_ ∷ es)
          (entry {dir' = dir'} near step small next more) enough acc =
        let t : ltb offset e.block_size ≡ true = ground (arith, near) in
        let there : add32 offset dir.rec_len ≡ offset + dir.rec_len =
          add32_exact offset dir.rec_len small in
        rw (t, there, next)
          (>>=_ext (if dir.inode != 0 then func dir acc else ok (true, acc)) _ _
            (λ r. entry_loop_lem fuel start (offset + dir.rec_len) dir' es more (omega arith) r.1))

    block_loop_lem :
        (inode : Inode) (ps : List ℕ) (es : List DirectoryEntry)
        → Blocks inode.indir_block_pointer ps es
        → (acc : A)
        → (block_loop read e func ps acc >>= λ r.
            check (not r.0 || inode.indir_block_pointer == 0) >> ok r.1)
          ≡ fold func es acc
    unfolding block_loop
    block_loop_lem inode [] es (all nothing) acc =
        let t : (inode.indir_block_pointer == 0) ≡ true = ground (arith, nothing) in rw t
    block_loop_lem inode (p ∷ ps) es (stop here) acc =
        let t : (block_index_to_offset read e p == 0) ≡ true = ground (arith, here) in rw t
    block_loop_lem inode (p ∷ ps) both
          (block {dir = dir} {es = es} {es' = es'} ne first here more app) acc =
        let t : (block_index_to_offset read e p == 0) ≡ false = ground (arith, ne) in
        let whole =
          entry_loop_lem e.block_size (block_index_to_offset read e p) 0 dir es here (omega arith)
            acc in
        rw (t, first, whole, app, fold-append func es es' acc)
          (split (fold func es acc) (λ a. block_loop_lem inode ps es' more a))
      where
        split :
            (m : Result A)
            → ((a : A)
                → (block_loop read e func ps a >>= λ r.
                    check (not r.0 || inode.indir_block_pointer == 0) >> ok r.1)
                  ≡ fold func es' a)
            → ((m >>= λ a. block_loop read e func ps a) >>= λ r.
                check (not r.0 || inode.indir_block_pointer == 0) >> ok r.1)
              ≡ (m >>= fold func es')
        split timeout each = refl
        split panic each = refl
        split fault each = refl
        split (ok a) each = each a

    -- On a directory whose blocks hold the entries `es`, `func` is called at each of them in use in
    -- their order, whatever it answers, and nothing else happens.
    pub for_each_entry_in_dir_lem :
        (inode : Inode) (es : List DirectoryEntry)
        → is_directory inode ≡ true
        → Blocks inode.indir_block_pointer inode.direct_block_pointers es
        → (acc : A) → for_each_entry_in_dir read e func inode acc ≡ fold func es acc
    unfolding for_each_entry_in_dir
    for_each_entry_in_dir_lem inode es isdir blocks acc =
        rw isdir (block_loop_lem inode inode.direct_block_pointers es blocks acc)
