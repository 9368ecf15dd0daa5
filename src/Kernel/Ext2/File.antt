-- ===== src/Kernel/Ext2/File.antt =====
-- Reading a file through data_from_inode.
use native.Mathlib.Nat.{
  div-eq_of_lt, mod-eq_of_lt, div_self, mod_self, add-mod_left, add-div_left, zero-div, zero-mod,
}
use bunos.Prelude.{
  ℕ, suc, ◌+◌, ◌-◌, ◌%◌, ◌^◌, ◌≤◌, ◌<◌, ◌≡◌, sym, ap, ◌∙◌, Bool-cases, inl, inr, true, false, List,
  ◌++◌, Result, ok, fault, arith, ltb, lt→ltb, leb, u32, length, take, take_all, length-append,
  length-take, overwrite, overwrite-overwrite, length-overwrite,
}
use bunos.Libc.Memory.{memcpy}
use bunos.Libc.Numbers.{pos, of_word}
use bunos.Libc.Memory.Copy.{memcpy_lem, memcpy_past}
use bunos.Kernel.Ext2.{
  Ext2, Inode, total_size, is_directory, read_inode_from_disk, read_inode_block_from_disk,
  copy_blocks, divide_ceil64, read_final_block, data_from_inode,
}

divide_ceil64_step : (n d : ℕ) → 0 < d → divide_ceil64 (d + n) d ≡ divide_ceil64 n d + 1
unfolding divide_ceil64
divide_ceil64_step n d h = rw (add-mod_left d n, add-div_left n h) (ground arith)

divide_ceil64_first : (m d : ℕ) → 0 < m → m ≤ d → divide_ceil64 m d ≡ 1
unfolding divide_ceil64
divide_ceil64_first m d h k = elim (Bool-cases (ltb m d)) [
  | inl l ↦
      let less : m < d = ground arith in rw (div-eq_of_lt less, mod-eq_of_lt less) (ground arith)
  | inr nl ↦
      let e : m ≡ d = ground arith in let p : 0 < d = omega arith in rw (e, mod_self d, div_self p)
]

of_word_lem : (n : ℕ) → n < 2 ^ 31 → of_word (u32 n) ≡ pos n
unfolding of_word
of_word_lem n h =
    let fits : u32 n ≡ n = omega arith in
    let small : ltb n (2 ^ 31) ≡ true = ground arith in rw (fits, small)

memcpy_whole :
    (buffer : List ℕ) (at : ℕ) (block : List ℕ) (n : ℕ)
    → length block ≡ n
    → at + n ≤ length buffer
    → memcpy buffer at block 0 n ≡ ok (overwrite buffer at block)
memcpy_whole buffer at block n size room =
    let all : take n block ≡ block = take_all n block (omega arith) in
    memcpy_lem buffer at block 0 n room (omega arith) ∙ ap (λ b. ok (overwrite buffer at b)) all

overwrite_parts :
    (buffer : List ℕ) (at : ℕ) (block rest content : List ℕ) (n : ℕ)
    → length block ≡ n
    → content ≡ block ++ rest
    → overwrite (overwrite buffer at block) (at + n) rest ≡ overwrite buffer at content
overwrite_parts buffer at block rest content n size is =
    rw (sym size, is) (overwrite-overwrite buffer at block rest)

module _ (read : ℕ → ℕ → Result (List ℕ)) (e : Ext2) (inode : Inode) where
  -- From block number `i` on the file of the inode holds these bytes: whole blocks and a part of the
  -- last one, which may be all of it.
  pub data Holds : ℕ → List ℕ → Type 0 where
    ending :
        {i : ℕ} {block content : List ℕ} (m : ℕ)
        → read_inode_block_from_disk read e inode i ≡ ok block
        → length block ≡ e.block_size
        → 0 < m
        → m ≤ e.block_size
        → content ≡ take m block
        → Holds i content
    whole :
        {i : ℕ} {block rest content : List ℕ}
        → read_inode_block_from_disk read e inode i ≡ ok block
        → length block ≡ e.block_size
        → Holds (i + 1) rest
        → content ≡ block ++ rest
        → Holds i content

  -- How the copy of the bytes from block `i` on splits into `k` whole blocks and the end.
  record Copied (i at : ℕ) (buffer content : List ℕ) : Type 0 where
    k : ℕ
    w : ℕ
    m : ℕ
    block : List ℕ
    copy : List ℕ
    blocks : divide_ceil64 (length content) e.block_size ≡ k + 1
    few : k < length content
    size : length content ≡ w + m
    some_left : 0 < m
    loop : copy_blocks read e inode k i buffer at ≡ ok (copy, at + w)
    there : read_inode_block_from_disk read e inode (i + k) ≡ ok block
    end : memcpy copy (at + w) block 0 m ≡ ok (overwrite buffer at content)

  -- One whole block in front of the others.
  Copied-append :
      (i at : ℕ) (buffer content block rest : List ℕ)
      → read_inode_block_from_disk read e inode i ≡ ok block
      → length block ≡ e.block_size
      → 0 < e.block_size
      → content ≡ block ++ rest
      → length content ≡ e.block_size + length rest
      → i + length content < 2 ^ 32
      → at + length content ≤ length buffer
      → Copied (i + 1) (at + e.block_size) (overwrite buffer at block) rest
      → Copied i at buffer content
  unfolding copy_blocks
  Copied-append i at buffer content block rest there size positive is long near room c =
      let u : u32 i ≡ i = omega arith in
      let sum : at + (e.block_size + c.w) ≡ at + e.block_size + c.w = omega arith in
      record {
        k = suc c.k;
        w = e.block_size + c.w;
        m = c.m;
        block = c.block;
        copy = c.copy;
        blocks = rw long (
            divide_ceil64_step (length rest) e.block_size positive
            ∙ ap (λ n. n + 1) c.blocks
            ∙ omega arith);
        few = omega (arith, c.few);
        size = omega (arith, c.size);
        some_left = c.some_left;
        loop =
            rw (u, there, memcpy_whole buffer at block e.block_size size (omega arith))
              (c.loop ∙ ap (λ j. ok (c.copy, j)) (sym sum));
        there = ap (read_inode_block_from_disk read e inode) (omega arith) ∙ c.there;
        end =
            rw sum
              (c.end ∙ ap ok (overwrite_parts buffer at block rest content e.block_size size is));
      }

  Holds-Copied :
      (i at : ℕ) (buffer content : List ℕ)
      → Holds i content
      → 0 < e.block_size
      → i + length content < 2 ^ 32
      → at + length content ≤ length buffer
      → Copied i at buffer content
  unfolding copy_blocks
  Holds-Copied i at buffer content (ending {block = block} m there size part few is) positive near
        room =
      let l : length content ≡ m = rw is (length-take m block ∙ omega arith) in
      let here : i + 0 ≡ i = omega arith in
      let from : at + 0 ≡ at = omega arith in
      record {
        k = 0;
        w = 0;
        m = m;
        block = block;
        copy = buffer;
        blocks = rw l (divide_ceil64_first m e.block_size part few);
        few = omega arith;
        size = omega arith;
        some_left = part;
        loop = ap (λ j. ok (buffer, j)) (sym from);
        there = rw here there;
        end = rw (from, is) (memcpy_lem buffer at block 0 m (omega arith) (omega arith));
      }
  Holds-Copied i at buffer content (whole {block = block} {rest = rest} there size more is) positive
        near room =
      let long : length content ≡ e.block_size + length rest =
        rw is (length-append block rest ∙ ap (λ n. n + length rest) size) in
      let wide : at + e.block_size + length rest ≤ length (overwrite buffer at block) =
        omega (arith, length-overwrite {0} buffer at block) in
      Copied-append i at buffer content block rest there size positive is long near room (
        Holds-Copied (i + 1) (at + e.block_size) (overwrite buffer at block) rest more positive
          (omega arith) wide)

  read_final_block_none :
      (end_block : ℕ) (buffer : List ℕ) (n : ℕ)
      → n < 2 ^ 32
      → read_final_block read e inode end_block n buffer n ≡ ok (n, buffer)
  unfolding read_final_block
  read_final_block_none end_block buffer n small =
      let left : (n + (2 ^ 64 - n)) % 2 ^ 64 ≡ 0 = omega arith in rw left

  read_final_block_lem :
      (end_block : ℕ) (buffer buffer' block : List ℕ) (w m n : ℕ)
      → n ≡ w + m
      → n < 2 ^ 32
      → 0 < m
      → end_block < 2 ^ 32
      → read_inode_block_from_disk read e inode end_block ≡ ok block
      → memcpy buffer w block 0 m ≡ ok buffer'
      → read_final_block read e inode end_block n buffer w ≡ ok (n, buffer')
  unfolding read_final_block
  read_final_block_lem end_block buffer buffer' block w m n size small some few there copies =
      let left : (n + (2 ^ 64 - w)) % 2 ^ 64 ≡ m = omega arith in
      let more : ltb 0 m ≡ true = lt→ltb 0 m some in
      let u : u32 end_block ≡ end_block = omega arith in
      let um : u32 m ≡ m = omega arith in
      let sum : u32 (w + m) ≡ n = omega arith in rw (left, more, u, there, um, copies, sum)

  read_all :
      (inode_index : ℕ) (content buffer block rest : List ℕ)
      → read_inode_from_disk read e inode_index ≡ ok inode
      → is_directory inode ≡ false
      → total_size inode ≡ length content
      → length content < 2 ^ 31
      → inode_index < 2 ^ 32
      → 0 < e.block_size
      → read_inode_block_from_disk read e inode 0 ≡ ok block
      → length block ≡ e.block_size
      → content ≡ block ++ rest
      → length content ≡ e.block_size + length rest
      → length content ≤ length buffer
      → Copied 1 e.block_size (overwrite buffer 0 block) rest
      → data_from_inode read e inode_index 0 (length content) buffer
        ≡ ok (pos (length content), overwrite buffer 0 content)
  unfolding data_from_inode
  read_all inode_index content buffer block rest found plain size short low positive there full is
        long room c =
      let index : u32 inode_index ≡ inode_index = omega arith in
      let value : of_word (u32 (length content)) ≡ pos (length content) =
        of_word_lem (length content) short in
      let t : leb (length content) (length content) ≡ true = ground arith in
      let z : 0 + length content ≡ length content = omega arith in
      let none : e.block_size - 0 ≡ e.block_size = omega arith in
      let c1 : divide_ceil64 (length content) e.block_size ≡ c.k + 2 = rw long (
        divide_ceil64_step (length rest) e.block_size positive
        ∙ ap (λ n. n + 1) c.blocks
        ∙ omega arith) in
      let rounds : (c.k + 2 + (2 ^ 64 - 1)) % 2 ^ 64 - (0 + 1) ≡ c.k = omega (arith, c.few) in
      let last_block : (c.k + 2 + (2 ^ 64 - 1)) % 2 ^ 64 ≡ 1 + c.k = omega (arith, c.few) in
      let z' : e.block_size ≡ 0 + e.block_size = omega arith in
      let all : memcpy c.copy (e.block_size + c.w) c.block 0 c.m ≡ ok (overwrite buffer 0 content) =
        c.end
        ∙ ap ok (
            ap (λ d. overwrite (overwrite buffer 0 block) d rest) z'
            ∙ overwrite_parts buffer 0 block rest content e.block_size full is) in
      rw
        (
          index,
          found,
          plain,
          size,
          z,
          t,
          zero-div e.block_size,
          zero-mod e.block_size,
          there,
          none,
          c1,
          memcpy_whole buffer 0 block e.block_size full (omega arith),
          rounds,
          c.loop,
          last_block,
        )
        (rw (
          read_final_block_lem (1 + c.k) c.copy (overwrite buffer 0 content) c.block
              (e.block_size + c.w) c.m (length content) (omega (arith, c.size)) (omega arith)
              c.some_left (omega (arith, c.few)) c.there all,
          value,
        ))

  -- A file of at least one block and below 2 GiB, read from its start to its end: the bytes that
  -- the blocks hold are written to the buffer, and their number is returned.
  pub data_from_inode_lem :
      (inode_index : ℕ) (content buffer : List ℕ)
      → read_inode_from_disk read e inode_index ≡ ok inode
      → is_directory inode ≡ false
      → total_size inode ≡ length content
      → length content < 2 ^ 31
      → inode_index < 2 ^ 32
      → 0 < e.block_size
      → e.block_size ≤ length content
      → Holds 0 content
      → length content ≤ length buffer
      → data_from_inode read e inode_index 0 (length content) buffer
        ≡ ok (pos (length content), overwrite buffer 0 content)
  unfolding data_from_inode
  data_from_inode_lem inode_index content buffer found plain size short low positive long
        (ending {block = block} m there full some few is) room =
      let index : u32 inode_index ≡ inode_index = omega arith in
      let value : of_word (u32 (length content)) ≡ pos (length content) =
        of_word_lem (length content) short in
      let t : leb (length content) (length content) ≡ true = ground arith in
      let n : length content ≡ m = rw is (length-take m block ∙ omega arith) in
      let one : m ≡ e.block_size = omega arith in
      let content' : content ≡ block = rw (is, one) (take_all e.block_size block (omega arith)) in
      let z : 0 + length content ≡ length content = omega arith in
      let none : e.block_size - 0 ≡ e.block_size = omega arith in
      let c1 : divide_ceil64 (length content) e.block_size ≡ 1 =
        divide_ceil64_first (length content) e.block_size (omega arith) (omega arith) in
      rw
        (
          index,
          found,
          plain,
          size,
          z,
          t,
          zero-div e.block_size,
          zero-mod e.block_size,
          there,
          none,
          c1,
          memcpy_whole buffer 0 block e.block_size full (omega arith),
          n,
          one,
          content',
        )
        (rw (
          read_final_block_none 0 (overwrite buffer 0 block) e.block_size (omega arith),
          of_word_lem e.block_size (omega arith),
        ))
  data_from_inode_lem inode_index content buffer found plain size short low positive long
        (whole {block = block} {rest = rest} there full more is) room =
      let more_long : length content ≡ e.block_size + length rest =
        rw is (length-append block rest ∙ ap (λ n. n + length rest) full) in
      let wide : e.block_size + length rest ≤ length (overwrite buffer 0 block) =
        omega (arith, length-overwrite {0} buffer 0 block) in
      read_all inode_index content buffer block rest found plain size short low positive there full
        is more_long room
        (Holds-Copied 1 e.block_size (overwrite buffer 0 block) rest more positive (omega arith)
          wide)

  -- A file that is shorter than a block, read into a buffer of its own length: the whole block is
  -- copied, past the end of the buffer.
  pub data_from_inode_short :
      (inode_index : ℕ) (block buffer : List ℕ)
      → read_inode_from_disk read e inode_index ≡ ok inode
      → is_directory inode ≡ false
      → inode_index < 2 ^ 32
      → total_size inode ≡ length buffer
      → length buffer < e.block_size
      → read_inode_block_from_disk read e inode 0 ≡ ok block
      → length block ≡ e.block_size
      → data_from_inode read e inode_index 0 (length buffer) buffer ≡ fault
  unfolding data_from_inode
  data_from_inode_short inode_index block buffer found plain low size short there full =
      let index : u32 inode_index ≡ inode_index = omega arith in
      let t : leb (length buffer) (length buffer) ≡ true = ground arith in
      let z : 0 + length buffer ≡ length buffer = omega arith in
      let none : e.block_size - 0 ≡ e.block_size = omega arith in
      rw (
        index,
        found,
        plain,
        size,
        z,
        t,
        zero-div e.block_size,
        zero-mod e.block_size,
        there,
        none,
        memcpy_past buffer 0 block 0 e.block_size (omega arith) (omega arith) (omega arith),
      )
