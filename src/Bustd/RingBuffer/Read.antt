-- ===== src/Bustd/RingBuffer/Read.antt =====
-- `read`, `drop`, `take`, `pop`, `head`, `clear` and `read_nocopy` against the contents.
use bunos.Prelude.{
  ℕ, ◌+◌, ◌-◌, ◌≤◌, ◌<◌, ◌≡◌, refl, List, [], ◌∷◌, arith, ltb, if◌then◌else◌, length, get_elem?,
  take, drop, overwrite, ok, panic, Bool-cases, inl, inr, length-overwrite,
  get_elem?-overwrite_block, get_elem?-overwrite, list_ext, get_elem?-take, get_elem?-drop, ltb→lt,
  length-take, overwrite-nil, ◌==◌,
}
use bunos.Bustd.Math.{minimum}
use bunos.Libc.Memory.Copy.{memcpy_lem}
use bunos.Bustd.RingBuffer.{Ring, read, discard, take_upto, pop, head}
use bunos.Bustd.RingBuffer.Contents.{IsValid, contents, wrap, length-contents, get_elem?-contents}

module _ (n : ℕ) {r : Ring} (buffer : List ℕ) (k : ℕ) (v : IsValid n r) (stored : k ≤ r.size)
    (room : k ≤ length buffer) where
  abbrev result : List ℕ
  result = overwrite buffer 0 (take k (contents n r))

  get_elem?-result :
      (i : ℕ)
      → get_elem? result i
        ≡ (if ltb i k then get_elem? r.buf (wrap n (r.start + i)) else get_elem? buffer i)
  get_elem?-result i = ground (
    arith,
    length-contents n r,
    length-take {0} k (contents n r),
    get_elem?-overwrite buffer 0 (take k (contents n r)) i,
    get_elem?-take k (contents n r) (i - 0),
    get_elem?-contents n (i - 0) v,
  )

  read_ahead : r.start + k < n → overwrite buffer 0 (take k (drop r.start r.buf)) ≡ result
  read_ahead h = list_ext _ _ λ i.
      ground
        (arith, v.storage, get_elem?-result i, get_elem?-overwrite_block buffer 0 k r.start r.buf i)

  read_around :
      let m = n - r.start in
      n ≤ r.start + k
      → overwrite (overwrite buffer 0 (take m (drop r.start r.buf))) m (take (k - m) (drop 0 r.buf))
        ≡ result
  read_around h =
      let m = n - r.start in
      list_ext _ _ λ i. ground (
        arith,
        v.storage,
        get_elem?-result i,
        length-overwrite {0} buffer 0 (take m (drop r.start r.buf)),
        get_elem?-overwrite_block (overwrite buffer 0 (take m (drop r.start r.buf))) m (k - m) 0
            r.buf i,
        get_elem?-overwrite_block buffer 0 m r.start r.buf i,
      )

-- `read` returns the number of bytes at hand, at most `len`, and stores exactly the oldest
-- bytes in order at the front of the caller's buffer; the rest of the buffer is unchanged.
pub read_lem :
    (n : ℕ) {r : Ring} (buffer : List ℕ) (len : ℕ)
    → IsValid n r
    → len ≤ length buffer
    → let k = minimum len r.size in
      read n r buffer len ≡ ok (k, overwrite buffer 0 (take k (contents n r)))
unfolding read
read_lem n {r} buffer len v room =
    let k = minimum len r.size in
    let m = n - r.start in
    let stored : k ≤ r.size = ground arith in
    let fits : k ≤ length buffer = ground arith in
    elim (Bool-cases (k == 0)) [
      | inl none_at_hand ↦ ground (arith, overwrite-nil buffer 0)
      | inr some_at_hand ↦ elim (Bool-cases (ltb (r.start + k) n)) [
        | inl ahead ↦ ground (
          arith,
          v.storage,
          memcpy_lem buffer 0 r.buf r.start k,
          read_ahead n buffer k v stored fits (ltb→lt _ _ ahead),
        )
        | inr around ↦ ground (
          arith,
          v.storage,
          length-overwrite {0} buffer 0 (take m (drop r.start r.buf)),
          memcpy_lem buffer 0 r.buf r.start m,
          memcpy_lem (overwrite buffer 0 (take m (drop r.start r.buf))) m r.buf 0 (k - m),
          read_around n buffer k v stored fits,
        )
      ]
    ]

module _ (n : ℕ) {r : Ring} (k : ℕ) (v : IsValid n r) where
  pub discard-IsValid : IsValid n (discard n r k).1
  unfolding discard
  discard-IsValid = ground arith

  discard-size : (discard n r k).1.size ≡ r.size - minimum k r.size
  unfolding discard
  discard-size = ground arith

  -- `drop` returns how many bytes it dropped, at most the stored ones, and drops the oldest.
  pub contents-discard :
      ((discard n r k).0 ≡ minimum k r.size)
      × (contents n (discard n r k).1 ≡ drop (minimum k r.size) (contents n r))
  unfolding discard
  contents-discard = (
    refl,
    list_ext _ _ λ i. ground (
      arith,
      get_elem?-contents n i discard-IsValid,
      get_elem?-contents n (minimum k r.size + i) v,
      get_elem?-drop (minimum k r.size) (contents n r) i,
    ),
  )

  contents-discard_stored : k ≤ r.size → contents n (discard n r k).1 ≡ drop k (contents n r)
  contents-discard_stored h = ground (arith, contents-discard)

-- `take` is `read` followed by `drop` of what was read.
pub take_upto_lem :
    (n : ℕ) {r : Ring} (buffer : List ℕ) (upto : ℕ)
    → IsValid n r
    → upto ≤ length buffer
    → let k = minimum upto r.size in
      (r' : Ring) × (take_upto n r buffer upto
        ≡ ok (k, overwrite buffer 0 (take k (contents n r)), r'))
      × IsValid n r'
      × (contents n r' ≡ drop k (contents n r))
unfolding take_upto
take_upto_lem n {r} buffer upto v room =
    let k = minimum upto r.size in
    (
      (discard n r k).1,
      rw (read_lem n buffer upto v room),
      discard-IsValid n k v,
      contents-discard_stored n k v (ground arith),
    )

module _ (n : ℕ) {r : Ring} (v : IsValid n r) where
  pub pop_empty : contents n r ≡ [] → pop n r ≡ panic
  unfolding pop
  pop_empty h =
      let (r', e, _, _) = take_upto_lem n (0 ∷ []) 1 v (omega arith) in
      let e' : minimum 1 r.size ≡ 0 = ground (arith, length-contents n r) in rw (e, e')

  pub head_empty : contents n r ≡ [] → head n r ≡ panic
  unfolding head
  head_empty h =
      let e' : minimum 1 r.size ≡ 0 = ground (arith, length-contents n r) in
      rw (read_lem n (0 ∷ []) 1 v (omega arith), e')

  module _ (x : ℕ) (q : List ℕ) (h : contents n r ≡ x ∷ q) where
    one_at_hand : minimum 1 r.size ≡ 1
    one_at_hand = ground (arith, length-contents n r)

    -- `pop` returns the oldest byte and removes it.
    pub pop_cons : (r' : Ring) × (pop n r ≡ ok (x, r')) × IsValid n r' × (contents n r' ≡ q)
    unfolding pop
    pop_cons =
        let (r', e, v', c) = take_upto_lem n (0 ∷ []) 1 v (omega arith) in
        (r', rw (e, one_at_hand, h), v', rw (one_at_hand, h) at c)

    -- `head` returns the oldest byte.
    pub head_cons : head n r ≡ ok x
    unfolding head
    head_cons = rw (read_lem n (0 ∷ []) 1 v (omega arith), one_at_hand, h)
