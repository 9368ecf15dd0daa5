-- ===== src/Bustd/RingBuffer/Queue.antt =====
-- What a ring promises to its clients: a first-in first-out queue of at most `cap` bytes. A client
-- sees the replies of its calls.
use bunos.Prelude.{
  ℕ, ◌-◌, List, [], ◌∷◌, ◌++◌, Result, ok, panic, ◌>>=◌, length, take, drop, ltb, if◌then◌else◌,
}
use bunos.Bustd.Math.{minimum}

pub data Op : Type 0 where
  write : List ℕ → Op
  take_upto : ℕ → Op
  discard : ℕ → Op
  push : ℕ → Op
  pop head clear : Op

pub data Reply : Type 0 where
  count : ℕ → Reply
  bytes : List ℕ → Reply
  byte : ℕ → Reply
  done : Reply

first : List ℕ → Result (ℕ × List ℕ)
first [] = panic
first (x ∷ q) = ok (x, q)

module _ (cap : ℕ) where
  unfoldable pub step : List ℕ → Op → Result (Reply × List ℕ)
  unfolding first
  step q (Op.write xs) =
      let k = minimum (length xs) (cap - length q) in ok (count k, q ++ take k xs)
  step q (Op.take_upto k) = ok (bytes (take k q), drop k q)
  step q (Op.discard k) = ok (count (minimum k (length q)), drop k q)
  step q (Op.push x) = ok (done, if ltb (length q) cap then q ++ (x ∷ []) else q)
  step q Op.pop = do (x, q') ← first q; ok (byte x, q')
  step q Op.head = do (x, q') ← first q; ok (byte x, q)
  step q Op.clear = ok (done, [])

  unfoldable pub run : List ℕ → List Op → Result (List Reply)
  run q [] = ok []
  run q (op ∷ ops) = do (reply, q') ← step q op; replies ← run q' ops; ok (reply ∷ replies)
