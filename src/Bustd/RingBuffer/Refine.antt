-- ===== src/Bustd/RingBuffer/Refine.antt =====
-- No sequence of calls tells a valid ring from the bounded queue of its contents.
use bunos.Prelude.{
  append-nil, ℕ, zero, suc, ◌≤◌, ◌≡◌, refl, List, [], ◌∷◌, arith, ltb, length, take, drop,
  overwrite, Result, ok, panic, Bool-cases, inl, inr, ◌>>=◌, length-replicate, replicate, take_all,
  drop_all, length-take, ap, ◌∙◌,
}
use bunos.Bustd.Math.{minimum}
use bunos.Bustd.RingBuffer
use bunos.Bustd.RingBuffer.{Ring}
use bunos.Bustd.RingBuffer.Contents.{IsValid, contents, length-contents}
use bunos.Bustd.RingBuffer.Write.{write_lem}
use bunos.Bustd.RingBuffer.Read.{
  take_upto_lem, discard-IsValid, contents-discard, pop_empty, pop_cons, head_empty, head_cons,
}
use bunos.Bustd.RingBuffer.Queue.{Op, Reply, count, bytes, byte, done}
use bunos.Bustd.RingBuffer.Queue

-- A client's call on the ring, with what it sees of the call.
unfoldable pub call : ℕ → Ring → Op → Result (Reply × Ring)
call n r (Op.write xs) = do (k, r') ← RingBuffer.write n r xs (length xs); ok (count k, r')
call n r (Op.take_upto k) = do
  (m, out, r') ← RingBuffer.take_upto n r (replicate k 0) k
  ok (bytes (take m out), r')
call n r (Op.discard k) = let (m, r') = RingBuffer.discard n r k in ok (count m, r')
call n r (Op.push x) = do r' ← RingBuffer.push n r x; ok (done, r')
call n r Op.pop = do (x, r') ← RingBuffer.pop n r; ok (byte x, r')
call n r Op.head = do x ← RingBuffer.head n r; ok (byte x, r)
call n r Op.clear = ok (done, RingBuffer.clear n r)

unfoldable pub calls : ℕ → Ring → List Op → Result (List Reply)
calls n r [] = ok []
calls n r (op ∷ ops) = do (reply, r') ← call n r op; replies ← calls n r' ops; ok (reply ∷ replies)

pub data Refines (n : ℕ) : Result (Reply × Ring) → Result (Reply × List ℕ) → Type 0 where
  returns :
      {x : Reply} {r : Ring} {q : List ℕ}
      → IsValid n r
      → contents n r ≡ q
      → Refines n (ok (x, r)) (ok (x, q))
  panics : Refines n panic panic

take_min : (k : ℕ) (q : List ℕ) → take (minimum k (length q)) q ≡ take k q
take_min k q = elim (Bool-cases (ltb k (length q))) [
  | inl e ↦ rw e
  | inr e ↦ ground (arith, take_all k q, take_all (length q) q)
]

drop_min : (k : ℕ) (q : List ℕ) → drop (minimum k (length q)) q ≡ drop k q
drop_min k q = elim (Bool-cases (ltb k (length q))) [
  | inl e ↦ rw e
  | inr e ↦ ground (arith, drop_all k q, drop_all (length q) q)
]

-- The bytes read out of the caller's buffer are those put there.
pub take-overwrite :
    (k : ℕ) (q buffer : List ℕ)
    → length q ≡ k
    → k ≤ length buffer
    → take k (overwrite buffer 0 q) ≡ q
take-overwrite zero [] buffer e h = refl
take-overwrite zero (x ∷ q) buffer e h = absurd (omega arith)
take-overwrite (suc k) [] buffer e h = absurd (omega arith)
take-overwrite (suc k) (x ∷ q) [] e h = absurd (omega arith)
take-overwrite (suc k) (x ∷ q) (y ∷ buffer) e h =
    ap (λ t. x ∷ t) (take-overwrite k q buffer (omega arith) (omega arith))

module _ (n : ℕ) {r : Ring} (v : IsValid n r) where
  write-Refines :
      (xs : List ℕ) → Refines n (call n r (Op.write xs)) (Queue.step n (contents n r) (Op.write xs))
  unfolding call Queue.step
  write-Refines xs =
      let (r', e, v', c) = write_lem n xs (length xs) v (omega arith) in
      rw (e, length-contents n r) (returns v' c)

  take-Refines :
      (k : ℕ) → Refines n (call n r (Op.take_upto k)) (Queue.step n (contents n r) (Op.take_upto k))
  unfolding call Queue.step
  take-Refines k =
      let (r', e, v', c) =
        take_upto_lem n (replicate k 0) k v (omega (arith, length-replicate {A = ℕ} k 0)) in
      let m = minimum k r.size in
      let same : take m (overwrite (replicate k 0) 0 (take m (contents n r)))
          ≡ take m (contents n r) =
        take-overwrite m (take m (contents n r)) (replicate k 0)
          (ground (arith, length-take {0} m (contents n r), length-contents n r))
          (ground (arith, length-replicate {A = ℕ} k 0)) in
      rw (e, same, ← take_min k (contents n r), ← drop_min k (contents n r), length-contents n r)
        (returns v' c)

  discard-Refines :
      (k : ℕ) → Refines n (call n r (Op.discard k)) (Queue.step n (contents n r) (Op.discard k))
  unfolding call Queue.step
  discard-Refines k =
      let (e, c) = contents-discard n k v in
      rw (e, length-contents n r)
        (returns (discard-IsValid n k v)
          (c ∙ (let m = drop_min k (contents n r) in rw (length-contents n r) at m)))

  push-Refines :
      (x : ℕ) → Refines n (call n r (Op.push x)) (Queue.step n (contents n r) (Op.push x))
  unfolding call Queue.step RingBuffer.push
  push-Refines x =
      let (r', e, v', c) = write_lem n (x ∷ []) 1 v (omega arith) in
      rw e (elim (Bool-cases (ltb (length (contents n r)) n)) [
        | inl room ↦ rw room (returns v' (ground (arith, c, length-contents n r, v.size_in)))
        | inr full ↦
            rw full
              (returns v' (c ∙ ground (arith, length-contents n r, append-nil (contents n r))))
      ])

  pop-Refines : Refines n (call n r Op.pop) (Queue.step n (contents n r) Op.pop)
  unfolding call Queue.step
  pop-Refines = go (contents n r) refl
    where
      go : (q : List ℕ) → contents n r ≡ q → Refines n (call n r Op.pop) (Queue.step n q Op.pop)
      go [] h = rw (pop_empty n v h) panics
      go (x ∷ q) h = let (r', e, v', c) = pop_cons n v x q h in rw e (returns v' c)

  head-Refines : Refines n (call n r Op.head) (Queue.step n (contents n r) Op.head)
  unfolding call Queue.step
  head-Refines = go (contents n r) refl
    where
      go : (q : List ℕ) → contents n r ≡ q → Refines n (call n r Op.head) (Queue.step n q Op.head)
      go [] h = rw (head_empty n v h) panics
      go (x ∷ q) h = rw (head_cons n v x q h) (returns v h)

  clear-Refines : Refines n (call n r Op.clear) (Queue.step n (contents n r) Op.clear)
  unfolding call Queue.step RingBuffer.clear
  clear-Refines =
      let (_, c) = contents-discard n r.size v in
      returns (discard-IsValid n r.size v)
        (c ∙ drop_all (minimum r.size r.size) (contents n r) (ground (arith, length-contents n r)))

  -- Each call on a valid ring returns what the queue's operation returns and leaves a valid ring
  -- with the queue's contents, and it panics exactly where the queue has no byte to give.
  pub call-Refines : (op : Op) → Refines n (call n r op) (Queue.step n (contents n r) op)
  call-Refines (Op.write xs) = write-Refines xs
  call-Refines (Op.take_upto k) = take-Refines k
  call-Refines (Op.discard k) = discard-Refines k
  call-Refines (Op.push x) = push-Refines x
  call-Refines Op.pop = pop-Refines
  call-Refines Op.head = head-Refines
  call-Refines Op.clear = clear-Refines

-- Any sequence of calls on a valid ring returns the replies of the bounded queue that starts with
-- the ring's contents, or panics with it.
pub calls_refine :
    (n : ℕ) (ops : List Op) {r : Ring}
    → IsValid n r
    → calls n r ops ≡ Queue.run n (contents n r) ops
unfolding calls Queue.run
calls_refine n [] v = refl
calls_refine n (op ∷ ops) {r} v = go (call-Refines n v op) (λ r' v'. calls_refine n ops {r = r'} v')
  where
    go :
        {a : Result (Reply × Ring)} {b : Result (Reply × List ℕ)}
        → Refines n a b
        → ((r' : Ring) → IsValid n r' → calls n r' ops ≡ Queue.run n (contents n r') ops)
        → (do (reply, r') ← a; replies ← calls n r' ops; ok (reply ∷ replies))
          ≡ (do (reply, q') ← b; replies ← Queue.run n q' ops; ok (reply ∷ replies))
    go (returns {x} {r = r'} v' c) rest = rw (rest r' v', c)
    go panics rest = refl
