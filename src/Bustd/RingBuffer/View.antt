-- ===== src/Bustd/RingBuffer/View.antt =====
-- `read_nocopy` shows the stored bytes without moving them.
use bunos.Prelude.{
  ℕ, ◌-◌, ◌≡◌, List, [], ◌++◌, Option, some, none, arith, ltb, take, drop, Bool-cases, inl, inr,
  list_ext, get_elem?-append, get_elem?-take, get_elem?-drop, length-take, length-drop, ◌==◌,
}
use bunos.Bustd.RingBuffer.{Ring, read_nocopy}
use bunos.Bustd.RingBuffer.Contents.{IsValid, contents, get_elem?-contents}

-- The bytes of both views, in the order in which the console prints them.
unfoldable pub shown : Option (List ℕ × Option (List ℕ)) → List ℕ
shown none = []
shown (some (a, none)) = a
shown (some (a, some b)) = a ++ b

-- The views together show exactly the contents, oldest byte first, whether the bytes lie in one
-- piece or go round the end; there is nothing to show when the ring is empty.
pub shown-read_nocopy : (n : ℕ) {r : Ring} → IsValid n r → shown (read_nocopy n r) ≡ contents n r
unfolding shown read_nocopy
shown-read_nocopy n {r} v = elim (Bool-cases (r.size == 0)) [
  | inl e ↦ rw e (list_ext _ _ λ i. ground (arith, get_elem?-contents n i v))
  | inr ne ↦ elim (Bool-cases (ltb (n - r.start) r.size)) [
    | inl two ↦
        let m = n - r.start in
        list_ext _ _ λ i. ground (
          arith,
          v.storage,
          get_elem?-contents n i v,
          length-take {0} m (drop r.start r.buf),
          length-drop {0} r.start r.buf,
          get_elem?-append (take m (drop r.start r.buf)) (take (r.size - m) r.buf) i,
          get_elem?-take m (drop r.start r.buf) i,
          get_elem?-drop r.start r.buf i,
          get_elem?-take (r.size - m) r.buf (i - m),
        )
    | inr one ↦ list_ext _ _ λ i. ground (
      arith,
      v.storage,
      get_elem?-contents n i v,
      get_elem?-take r.size (drop r.start r.buf) i,
      get_elem?-drop r.start r.buf i,
    )
  ]
]
