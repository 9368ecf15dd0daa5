-- ===== src/Kernel/Serial/Order.antt =====
-- What is written to the line goes out in its order.
use bunos.Prelude.{
  ℕ, zero, suc, ◌-◌, ◌≤◌, ◌≡◌, ◌≢◌, refl, sym, ap, ◌∙◌, Bool-cases, inl, inr, ◌*◌, true, Result,
  List, [], ◌∷◌, ◌++◌, ok, ◌>>=◌, arith, ◌==◌, ◌!=◌, bit_and, take, drop, replicate, length,
  length-replicate, length-take, length-drop, overwrite, append_assoc, append-nil, take-append-drop,
}
use bunos.Bustd.Math.{minimum}
use bunos.Bustd.RingBuffer.{Ring, is_empty}
use bunos.Bustd.RingBuffer.Contents.{IsValid, contents, length-contents}
use bunos.Bustd.RingBuffer.Read.{take_upto_lem}
use bunos.Bustd.RingBuffer.Refine.{take-overwrite}
use bunos.Kernel.Interrupts.{Ports}
use bunos.Kernel.Serial.{
  transmit_buffer, line_status, buffer_size, fifo_size, ready_to_send, send_bytes, transmit,
  wait_ready, flush,
}

-- The status has the bit that says that the transmitter is empty.
abbrev pub IsReady : {S : Type 0} → Ports S → S → Type 0
IsReady ports s = bit_and (ports.in_u8 line_status s).0 0x40 ≢ 0

-- Within `n` polls of the status the transmitter is empty.
pub data ReadyWithin {S : Type 0} (ports : Ports S) : ℕ → S → Type 0 where
  at_once : {n : ℕ} {s : S} → IsReady ports s → ReadyWithin ports (suc n) s
  soon :
      {n : ℕ} {s : S}
      → ReadyWithin ports n (ports.in_u8 line_status s).1
      → ReadyWithin ports (suc n) s

-- These bytes written to the port of the data, in this order.
abbrev pub written : {S : Type 0} → Ports S → List ℕ → S → S
written ports [] s = s
written ports (b ∷ bs) s = written ports bs (ports.out_u8 0x3F8 b s)

-- What a UART with a FIFO of 16 bytes documents, where `sent` shows the bytes that have gone out or
-- wait in the FIFO: reading the status sends nothing, the transmitter gets empty within `n` polls
-- of the status, it stays empty until a byte is written, and up to 16 bytes written once it was
-- seen empty are sent in their order. What becomes of bytes that are written while it is not empty
-- is left open.
pub record IsLine {S : Type 0} (ports : Ports S) (sent : S → List ℕ) (n : ℕ) : Type 0 where
  pub silent : (s : S) → sent (ports.in_u8 line_status s).1 ≡ sent s
  pub comes : (s : S) → ReadyWithin ports n s
  pub stays : (s : S) → IsReady ports s → IsReady ports (ports.in_u8 line_status s).1
  pub sends :
      (s : S) (bs : List ℕ)
      → IsReady ports s
      → length bs ≤ 16
      → sent (written ports bs (ports.in_u8 line_status s).1) ≡ sent s ++ bs

nonzero_test : (x : ℕ) → x ≢ 0 → (x != 0) ≡ true
nonzero_test x ne = ground arith

least : (a b : ℕ) → minimum a b ≡ a - (a - b)
least a b = ground arith

length-nil : (l : List ℕ) → length l ≡ 0 → l ≡ []
length-nil [] h = refl
length-nil (x ∷ l) h = absurd (omega arith)

no_contents : (r : Ring) → r.size ≡ 0 → contents buffer_size r ≡ []
no_contents r h = length-nil _ (length-contents buffer_size r ∙ h)

-- `transmit` called `j` times.
abbrev pub transmit_times : {S : Type 0} → Ports S → ℕ → Ring → S → Result (Ring × S)
transmit_times ports zero r s = ok (r, s)
transmit_times ports (suc j) r s = do (r', s') ← transmit ports r s; transmit_times ports j r' s'

send_bytes_lem :
    {S : Type 0} (ports : Ports S) (bs : List ℕ) (s : S)
    → send_bytes ports bs s ≡ written ports bs s
unfolding send_bytes
send_bytes_lem ports [] s = refl
send_bytes_lem ports (b ∷ bs) s = send_bytes_lem ports bs (ports.out_u8 transmit_buffer b s)

module _ {S : Type 0} (ports : Ports S) (sent : S → List ℕ) {n : ℕ}
    (line : IsLine ports sent n) where
  -- A transmission when the transmitter is empty: up to 16 bytes leave the buffer.
  transmit_ready :
      (r : Ring) (s : S)
      → IsValid buffer_size r
      → IsReady ports s
      → (r' : Ring) × (s' : S) × (transmit ports r s ≡ ok (r', s'))
        × IsValid buffer_size r'
        × (sent s' ++ contents buffer_size r' ≡ sent s ++ contents buffer_size r)
        × (r'.size ≡ r.size - 16)
  unfolding transmit ready_to_send
  transmit_ready r s v ready =
      let (r', e, v', c) =
        take_upto_lem buffer_size (replicate fifo_size 0) fifo_size v
          (omega (arith, length-replicate {A = ℕ} fifo_size 0)) in
      let k : ℕ = minimum fifo_size r.size in
      let s1 : S = (ports.in_u8 line_status s).1 in
      let t : (bit_and (ports.in_u8 line_status s).0 0x40 != 0) ≡ true =
        nonzero_test (bit_and (ports.in_u8 line_status s).0 0x40) ready in
      let many : length (take k (contents buffer_size r)) ≡ k = omega (
        arith,
        length-take {0} k (contents buffer_size r),
        length-contents buffer_size r,
        least fifo_size r.size,
      ) in
      let bytes : take k (overwrite (replicate fifo_size 0) 0 (take k (contents buffer_size r)))
          ≡ take k (contents buffer_size r) =
        take-overwrite k (take k (contents buffer_size r)) (replicate fifo_size 0) many
          (omega (arith, length-replicate {A = ℕ} fifo_size 0, least fifo_size r.size)) in
      let few : length (take k (contents buffer_size r)) ≤ 16 =
        omega (arith, many, least fifo_size r.size) in
      let out =
        ap sent (send_bytes_lem ports (take k (contents buffer_size r)) s1)
        ∙ line.sends s (take k (contents buffer_size r)) ready few in
      (
        r',
        send_bytes ports (take k (contents buffer_size r)) s1,
        rw (t, e, bytes),
        v',
        rw (out, c)
            (append_assoc (sent s) (take k (contents buffer_size r))
                (drop k (contents buffer_size r))
              ∙ ap (λ l. sent s ++ l) (take-append-drop k (contents buffer_size r))),
        omega (
          arith,
          length-contents buffer_size r,
          length-contents buffer_size r',
          ap length c,
          length-drop {0} k (contents buffer_size r),
          least fifo_size r.size,
        ),
      )

  -- Any transmission: nothing is lost.
  transmit_lem :
      (r : Ring) (s : S)
      → IsValid buffer_size r
      → (r' : Ring) × (s' : S) × (transmit ports r s ≡ ok (r', s'))
        × IsValid buffer_size r'
        × (sent s' ++ contents buffer_size r' ≡ sent s ++ contents buffer_size r)
        × (r'.size ≤ r.size)
  unfolding transmit ready_to_send
  transmit_lem r s v = elim (Bool-cases (bit_and (ports.in_u8 line_status s).0 0x40 != 0)) [
    | inl t ↦
        let ready : IsReady ports s = ground (arith, t) in
        let (r', s', e, v', all, left) = transmit_ready r s v ready in
        (r', s', e, v', all, omega (arith, left))
    | inr t ↦ (
      r,
      (ports.in_u8 line_status s).1,
      rw t,
      v,
      ap (λ l. l ++ contents buffer_size r) (line.silent s),
      omega arith,
    )
  ]

  transmit_times_lem :
      (j : ℕ) (r : Ring) (s : S)
      → IsValid buffer_size r
      → (r' : Ring) × (s' : S) × (transmit_times ports j r s ≡ ok (r', s'))
        × IsValid buffer_size r'
        × (sent s' ++ contents buffer_size r' ≡ sent s ++ contents buffer_size r)
        × (r'.size ≤ r.size)
  transmit_times_lem zero r s v = (r, s, refl, v, refl, omega arith)
  transmit_times_lem (suc j) r s v =
      let (r1, s1, e1, v1, all1, less1) = transmit_lem r s v in
      let (r2, s2, e2, v2, all2, less2) = transmit_times_lem j r1 s1 v1 in
      (r2, s2, rw (e1, e2), v2, all2 ∙ all1, omega (arith, less1, less2))

  wait_ready_lem :
      (m fuel : ℕ) (s : S)
      → ReadyWithin ports m s
      → m ≤ fuel
      → (s' : S) × (wait_ready ports fuel s ≡ ok s') × IsReady ports s' × (sent s' ≡ sent s)
  unfolding wait_ready ready_to_send
  wait_ready_lem zero fuel s polls enough = elim polls [ ]
  wait_ready_lem (suc m) zero s polls enough = absurd (omega arith)
  wait_ready_lem (suc m) (suc fuel) s (at_once ready) enough =
      let t = nonzero_test (bit_and (ports.in_u8 line_status s).0 0x40) ready in
      ((ports.in_u8 line_status s).1, rw t, line.stays s ready, line.silent s)
  wait_ready_lem (suc m) (suc fuel) s (soon polls) enough =
      elim (Bool-cases (bit_and (ports.in_u8 line_status s).0 0x40 != 0)) [
        | inl t ↦
            let ready : IsReady ports s = ground (arith, t) in
            ((ports.in_u8 line_status s).1, rw t, line.stays s ready, line.silent s)
        | inr t ↦
            let (s', e, ready, same) = wait_ready_lem m fuel _ polls (omega arith) in
            (s', rw (t, e), ready, same ∙ line.silent s)
      ]

  flush_rounds :
      (fuel k : ℕ) (r : Ring) (s : S)
      → n ≤ fuel
      → IsValid buffer_size r
      → r.size ≤ 16 * k
      → (r' : Ring) × (s' : S) × (flush ports fuel k r s ≡ ok (r', s'))
        × (contents buffer_size r' ≡ [])
        × (sent s' ≡ sent s ++ contents buffer_size r)
  unfolding flush is_empty
  flush_rounds fuel zero r s enough v fits =
      let t : (r.size == 0) ≡ true = ground arith in
      let none = no_contents r (omega arith) in
      (r, s, rw t, none, rw none (sym (append-nil (sent s))))
  flush_rounds fuel (suc k) r s enough v fits = elim (Bool-cases (r.size == 0)) [
    | inl t ↦
        let none = no_contents r (ground (arith, t)) in
        (r, s, rw t, none, rw none (sym (append-nil (sent s))))
    | inr t ↦
        let (s1, waited, ready, same) = wait_ready_lem n fuel s (line.comes s) enough in
        let (r2, s2, e, v2, all, left) = transmit_ready r s1 v ready in
        let (r3, s3, f, none, rest) = flush_rounds fuel k r2 s2 enough v2 (omega (arith, left)) in
        (
          r3,
          s3,
          rw (t, waited, e, f),
          none,
          rest ∙ all ∙ ap (λ l. l ++ contents buffer_size r) same,
        )
  ]

  -- On a line whose transmitter gets empty within `n` polls, without interrupts: after any number
  -- of calls of `transmit`, which may come while the line is busy, flush returns, with a fuel of
  -- `n` or more for its wait and a fuel for its rounds of 16 bytes each that covers the buffer. The
  -- buffer is empty then, and the line has sent what was in it, in its order and each byte once,
  -- behind what it had sent before.
  pub flush_lem :
      (j fuel k : ℕ) (r : Ring) (s : S)
      → n ≤ fuel
      → IsValid buffer_size r
      → r.size ≤ 16 * k
      → (r' : Ring) × (s' : S) × ((transmit_times ports j r s >>= λ t. flush ports fuel k t.0 t.1)
          ≡ ok (r', s'))
        × (contents buffer_size r' ≡ [])
        × (sent s' ≡ sent s ++ contents buffer_size r)
  flush_lem j fuel k r s enough v fits =
      let (r1, s1, e1, v1, all1, less) = transmit_times_lem j r s v in
      let (r2, s2, e2, none, rest) = flush_rounds fuel k r1 s1 enough v1 (omega (arith, less)) in
      (r2, s2, rw (e1, e2), none, rest ∙ all1)
