-- ===== src/Kernel/Keyboard/Owner.antt =====
-- Who may take the keyboard file.
use bunos.Prelude.{
  ℕ, ◌≡◌, ◌≢◌, refl, true, false, List, [], ◌∷◌, Result, ok, ◌>>=◌, arith, ◌!=◌, replicate,
  length-replicate,
}
use bunos.Bustd.RingBuffer
use bunos.Bustd.RingBuffer.Contents.{IsValid}
use bunos.Bustd.RingBuffer.Write.{push_lem}
use bunos.Bustd.RingBuffer.Read.{take_upto_lem}
use bunos.Kernel.Keyboard.{KeyboardFile, key_trigger, open_file, close_file, read_file, file_size}

pub data FileOp : Type 0 where
  trigger : ℕ → FileOp
  open_as : ℕ → FileOp
  close_as : ℕ → FileOp
  read_upto : ℕ → FileOp

pub step : KeyboardFile → FileOp → Result KeyboardFile
step f (trigger c) = key_trigger f c
step f (open_as pid) = ok (open_file f pid).1
step f (close_as pid) = ok (close_file f pid).1
step f (read_upto len) = do (_, _, f') ← read_file f (replicate len 0) len; ok f'

pub steps : KeyboardFile → List FileOp → Result KeyboardFile
unfolding step
steps f [] = ok f
steps f (op ∷ ops) = do f' ← step f op; steps f' ops

-- No call closes the file as process `p`.
pub data IsForeign (p : ℕ) : List FileOp → Type 0 where
  none_left : IsForeign p []
  triggered : {c : ℕ} {ops : List FileOp} → IsForeign p ops → IsForeign p (trigger c ∷ ops)
  opened : {pid : ℕ} {ops : List FileOp} → IsForeign p ops → IsForeign p (open_as pid ∷ ops)
  closed :
      {pid : ℕ} {ops : List FileOp} → pid ≢ p → IsForeign p ops → IsForeign p (close_as pid ∷ ops)
  did_read : {len : ℕ} {ops : List FileOp} → IsForeign p ops → IsForeign p (read_upto len ∷ ops)

-- Once process `p` owns the file, no calls of the interrupt handler and of other processes fail,
-- and `p` owns it after them.
pub steps_owner :
    {p : ℕ} {ops : List FileOp} (f : KeyboardFile)
    → f.owning_pid ≡ p
    → p ≢ 0
    → IsValid file_size f.buffer
    → IsForeign p ops
    → (f' : KeyboardFile) × (steps f ops ≡ ok f')
      × (f'.owning_pid ≡ p)
      × IsValid file_size f'.buffer
unfolding steps key_trigger open_file close_file read_file
steps_owner f own pos v none_left = (f, refl, own, v)
steps_owner f own pos v (triggered {c = c} t) =
    let (r', e, v', _) = push_lem file_size c v in
    let (f', e', own', w) = steps_owner (record f { buffer = r' }) own pos v' t in
    (f', rw (e, e'), own', w)
steps_owner f own pos v (opened {pid = pid} t) =
    let taken : (f.owning_pid != 0) ≡ true = ground arith in
    let (f', e', own', w) = steps_owner f own pos v t in (f', rw (taken, e'), own', w)
steps_owner f own pos v (closed {pid = pid} ne t) =
    let foreign : (f.owning_pid != pid) ≡ true = ground arith in
    let (f', e', own', w) = steps_owner f own pos v t in (f', rw (foreign, e'), own', w)
steps_owner f own pos v (did_read {len = len} t) =
    let (r', e, v', _) =
      take_upto_lem file_size (replicate len 0) len v
        (omega (arith, length-replicate {A = ℕ} len 0)) in
    let (f', e', own', w) = steps_owner (record f { buffer = r' }) own pos v' t in
    (f', rw (e, e'), own', w)

-- `open` gives the file to a process exactly when nobody owns it, and then with nothing in it; only
-- the owner's `close` frees it.
pub open_file_lem :
    (f : KeyboardFile) (p q : ℕ)
    → p ≢ 0
    → f.owning_pid ≡ 0
    → let f' = (open_file f p).1 in
      ((open_file f p).0 ≡ true)
      × (f'.owning_pid ≡ p)
      × (f'.buffer.size ≡ 0)
      × ((open_file f' q).0 ≡ false)
      × ((close_file f' p).0 ≡ true)
      × ((close_file f' p).1.owning_pid ≡ 0)
unfolding open_file close_file RingBuffer.clear RingBuffer.discard
open_file_lem f p q pos free =
    let fresh : (f.owning_pid != 0) ≡ false = ground arith in
    let taken : (p != 0) ≡ true = ground arith in
    let same : (p != p) ≡ false = ground arith in
    (
      rw fresh,
      rw fresh,
      rw fresh (ground arith),
      rw (fresh, taken),
      rw (fresh, same),
      rw (fresh, same),
    )
