-- ===== src/Bustd/RingBuffer/Write.antt =====
-- `write` stores as much as fits behind the stored bytes, on each of its three paths.
use bunos.Prelude.{
  take-append_exact, length-append, take_all, sym, ap, ◌∙◌, append-nil, [], ◌∷◌, ℕ, ◌+◌, ◌-◌, ◌≤◌,
  ◌<◌, ◌≡◌, List, ◌++◌, arith, ltb, leb, length, get_elem?, take, drop, overwrite, ok, Bool-cases,
  inl, inr, add32, length-overwrite, get_elem?-overwrite_block, list_ext, get_elem?-append,
  get_elem?-take, leb→le, ltb→lt,
}
use bunos.Bustd.Math.{minimum}
use bunos.Libc.Memory.Copy.{memcpy_lem}
use bunos.Bustd.RingBuffer.{push, Ring, write_bytes, write}
use bunos.Bustd.RingBuffer.Contents.{
  IsValid, contents, wrap, length-contents, get_elem?-contents, remaining_space_lem,
}

-- `k` bytes of `buffer` stand behind the stored ones, which are as they were.
record Placed (n : ℕ) (r : Ring) (buffer : List ℕ) (k : ℕ) (out : List ℕ) : Type 0 where
  same_length : length out ≡ n
  new : (t : ℕ) → t < k → get_elem? out (wrap n (r.start + (r.size + t))) ≡ get_elem? buffer t
  old :
      (i : ℕ)
      → i < r.size
      → get_elem? out (wrap n (r.start + i)) ≡ get_elem? r.buf (wrap n (r.start + i))

module _ (n : ℕ) {r : Ring} (buffer : List ℕ) (k : ℕ) (v : IsValid n r) (fits : k ≤ n - r.size)
    (given : k ≤ length buffer) where
  direct :
      r.start + r.size + k ≤ n
      → Placed n r buffer k (overwrite r.buf (r.start + r.size) (take k (drop 0 buffer)))
  direct h = record {
    same_length =
        omega (arith, length-overwrite {0} r.buf (r.start + r.size) (take k (drop 0 buffer)));
    new = λ t p. ground (
      arith,
      get_elem?-overwrite_block r.buf (r.start + r.size) k 0 buffer
          (wrap n (r.start + (r.size + t))),
    );
    old = λ i p. ground (
      arith,
      get_elem?-overwrite_block r.buf (r.start + r.size) k 0 buffer (wrap n (r.start + i)),
    );
  }

  divided :
      (let m = n - (r.start + r.size) in
        r.start + r.size < n
        → n < r.start + r.size + k
        → Placed n r buffer k (
            overwrite
              (overwrite r.buf (r.start + r.size) (take m (drop 0 buffer)))
              0
              (take (k - m) (drop m buffer))))
  divided h above =
      let m = n - (r.start + r.size) in
      let first = overwrite r.buf (r.start + r.size) (take m (drop 0 buffer)) in
      let same : length first ≡ n =
        omega (arith, length-overwrite {0} r.buf (r.start + r.size) (take m (drop 0 buffer))) in
      record {
        same_length = omega (arith, length-overwrite {0} first 0 (take (k - m) (drop m buffer)));
        new = λ t p. ground (
          arith,
          get_elem?-overwrite_block first 0 (k - m) m buffer (wrap n (r.start + (r.size + t))),
          get_elem?-overwrite_block r.buf (r.start + r.size) m 0 buffer
              (wrap n (r.start + (r.size + t))),
        );
        old = λ i p. ground (
          arith,
          get_elem?-overwrite_block first 0 (k - m) m buffer (wrap n (r.start + i)),
          get_elem?-overwrite_block r.buf (r.start + r.size) m 0 buffer (wrap n (r.start + i)),
        );
      }

  wrapped :
      n ≤ r.start + r.size
      → Placed n r buffer k (overwrite r.buf (r.start + r.size - n) (take k (drop 0 buffer)))
  wrapped h = record {
    same_length =
        omega (arith, length-overwrite {0} r.buf (r.start + r.size - n) (take k (drop 0 buffer)));
    new = λ t p. ground (
      arith,
      get_elem?-overwrite_block r.buf (r.start + r.size - n) k 0 buffer
          (wrap n (r.start + (r.size + t))),
    );
    old = λ i p. ground (
      arith,
      get_elem?-overwrite_block r.buf (r.start + r.size - n) k 0 buffer (wrap n (r.start + i)),
    );
  }

  write_bytes_direct :
      r.start + r.size + k ≤ n
      → write_bytes n r buffer k ≡ ok (overwrite r.buf (r.start + r.size) (take k (drop 0 buffer)))
  unfolding write_bytes
  write_bytes_direct h = ground (arith, memcpy_lem r.buf (r.start + r.size) buffer 0 k)

  write_bytes_wrapped :
      n ≤ r.start + r.size
      → n < r.start + r.size + k
      → write_bytes n r buffer k
        ≡ ok (overwrite r.buf (r.start + r.size - n) (take k (drop 0 buffer)))
  unfolding write_bytes
  write_bytes_wrapped h e = ground (arith, memcpy_lem r.buf (r.start + r.size - n) buffer 0 k)

  write_bytes_divided :
      (let m = n - (r.start + r.size) in
        let first = overwrite r.buf (r.start + r.size) (take m (drop 0 buffer)) in
        r.start + r.size < n
        → n < r.start + r.size + k
        → write_bytes n r buffer k ≡ ok (overwrite first 0 (take (k - m) (drop m buffer))))
  unfolding write_bytes
  write_bytes_divided h above =
      let m = n - (r.start + r.size) in
      let first = overwrite r.buf (r.start + r.size) (take m (drop 0 buffer)) in
      ground (
        arith,
        length-overwrite {0} r.buf (r.start + r.size) (take m (drop 0 buffer)),
        memcpy_lem r.buf (r.start + r.size) buffer 0 m,
        memcpy_lem first 0 buffer m (k - m),
      )

  write_bytes-Placed :
      (out : List ℕ) × (write_bytes n r buffer k ≡ ok out) × Placed n r buffer k out
  write_bytes-Placed = elim (Bool-cases (leb (r.start + r.size + k) n)) [
    | inl near ↦ (
      overwrite r.buf (r.start + r.size) (take k (drop 0 buffer)),
      write_bytes_direct (leb→le _ _ near),
      direct (leb→le _ _ near),
    )
    | inr far ↦ elim (Bool-cases (ltb (r.start + r.size) n)) [
      | inl across ↦ (
        _,
        write_bytes_divided (ltb→lt _ _ across) (ground arith),
        divided (ltb→lt _ _ across) (ground arith),
      )
      | inr behind ↦ (_, write_bytes_wrapped (ground arith) (ground arith), wrapped (ground arith))
    ]
  ]

  -- The ring after `k` bytes went in.
  abbrev grown : List ℕ → Ring
  grown out = record r { size = add32 r.size k; buf = out }

  grown-IsValid : {out : List ℕ} → Placed n r buffer k out → IsValid n (grown out)
  grown-IsValid p = ground (arith, p.same_length)

  contents-grown :
      {out : List ℕ}
      → Placed n r buffer k out
      → contents n (grown out) ≡ contents n r ++ take k buffer
  contents-grown {out} p = list_ext _ _ λ i. ground (
    arith,
    get_elem?-contents n {r = grown out} i (grown-IsValid p),
    get_elem?-contents n i v,
    get_elem?-append (contents n r) (take k buffer) i,
    get_elem?-take k buffer (i - r.size),
    length-contents n r,
    p.new (i - r.size),
    p.old i,
  )

-- `write` returns the number of bytes that fit, appends exactly those of the buffer to the
-- contents in order, and keeps the ring valid, whether or not the bytes go round the end.
pub write_lem :
    (n : ℕ) {r : Ring} (buffer : List ℕ) (len : ℕ)
    → IsValid n r
    → len ≤ length buffer
    → let k = minimum len (n - r.size) in
      (r' : Ring) × (write n r buffer len ≡ ok (k, r'))
      × IsValid n r'
      × (contents n r' ≡ contents n r ++ take k buffer)
unfolding write
write_lem n {r} buffer len v given =
    let k = minimum len (n - r.size) in
    let fits : k ≤ n - r.size = ground arith in
    let enough : k ≤ length buffer = ground arith in
    let (out, e, p) = write_bytes-Placed n buffer k v fits enough in
    (
      record r { size = add32 r.size k; buf = out },
      rw (remaining_space_lem n v, e),
      grown-IsValid n buffer k v fits enough p,
      contents-grown n buffer k v fits enough p,
    )

-- `push` appends the byte, and drops it when the ring is full.
pub push_lem :
    (n : ℕ) {r : Ring} (x : ℕ)
    → IsValid n r
    → (r' : Ring) × (push n r x ≡ ok r')
      × IsValid n r'
      × (contents n r' ≡ take n (contents n r ++ (x ∷ [])))
unfolding push
push_lem n {r} x v =
    let (r', e, v', c) = write_lem n (x ∷ []) 1 v (omega arith) in
    let snoc = contents n r ++ (x ∷ []) in
    (
      r',
      rw e,
      v',
      elim (Bool-cases (ltb r.size n)) [
        | inl room ↦
            let k : minimum 1 (n - r.size) ≡ 1 = ground arith in
            let keep : take n snoc ≡ snoc = take_all n snoc (
              omega (
                arith,
                ltb→lt _ _ room,
                length-contents n r,
                length-append (contents n r) (x ∷ []),
              )) in
            c ∙ ap (λ k. contents n r ++ take k (x ∷ [])) k ∙ sym keep
        | inr full ↦
            let k : minimum 1 (n - r.size) ≡ 0 = ground arith in
            c
            ∙ ap (λ k. contents n r ++ take k (x ∷ [])) k
            ∙ append-nil (contents n r)
            ∙ sym (
                take-append_exact n (contents n r) (x ∷ [])
                  (ground (arith, length-contents n r, v.size_in)))
      ],
    )
