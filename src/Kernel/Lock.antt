-- ===== src/Kernel/Lock.antt =====
-- kernel/interruptguard.cpp and kernel/spinlock.cpp, on the processor's interrupt flag and the two
-- flags of a lock.
use bunos.Prelude.{
  ℕ, zero, suc, ◌≡◌, refl, Bool, true, false, Result, ok, timeout, ◌>>=◌, ◌>>◌, check,
  if◌then◌else◌,
}

pub record SpinLock : Type 0 where
  pub valid : Bool
  pub locked : Bool

abbrev pub new_lock : SpinLock
new_lock = record { valid = true; locked = false }

-- The constructor of InterruptGuard gives `m_did_disable_interrupts` and the flag; the destructor
-- gives the flag.
abbrev pub guard_enter : Bool → Bool × Bool
guard_enter enabled = if enabled then (true, false) else (false, false)

abbrev pub guard_leave : Bool → Bool → Bool
guard_leave did_disable enabled = if did_disable then true else enabled

-- The loop of `lock`, on fuel: a lock that is held stays held, since nothing else runs here.
unfoldable pub lock : ℕ → Bool → SpinLock → Result (Bool × SpinLock)
lock zero enabled l = timeout
lock (suc fuel) enabled l = do
  let (did_disable, inside) = guard_enter enabled
  check l.valid
  let again = lock fuel (guard_leave did_disable inside) l
  (if l.locked then again else ok (guard_leave did_disable inside, record l { locked = true }))

unfoldable pub unlock : Bool → SpinLock → Result (Bool × SpinLock)
unlock enabled l = do
  let (did_disable, inside) = guard_enter enabled
  check l.locked
  ok (guard_leave did_disable inside, record l { locked = false })

-- A guard leaves the interrupt flag as it found it.
pub guard_leave_enter :
    (enabled : Bool) → guard_leave (guard_enter enabled).0 (guard_enter enabled).1 ≡ enabled
guard_leave_enter true = refl
guard_leave_enter false = refl

-- A valid lock that is free is taken in the first round, and given back by `unlock`; the interrupt
-- flag is the same after both.
pub unlock-lock :
    (fuel : ℕ) (enabled : Bool) (l : SpinLock)
    → l.valid ≡ true
    → l.locked ≡ false
    → (do (flag, l') ← lock (suc fuel) enabled l; unlock flag l') ≡ ok (enabled, l)
unfolding lock unlock
unlock-lock fuel true l usable free = rw (usable, free)
unlock-lock fuel false l usable free = rw (usable, free)

abbrev pub held_lock : SpinLock
held_lock = record { valid = true; locked = true }

-- A lock that is held is waited for without end.
pub lock-held : (fuel : ℕ) (enabled : Bool) → lock fuel enabled held_lock ≡ timeout
unfolding lock
lock-held zero enabled = refl
lock-held (suc fuel) true = lock-held fuel true
lock-held (suc fuel) false = lock-held fuel false
