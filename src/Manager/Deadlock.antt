-- ===== src/Manager/Deadlock.antt =====
-- enhancement-register-manager.go: a read that can never finish.
use gomodbus.Prelude.{ℕ, zero, suc, ◌+◌, ◌-◌, ◌≤◌, ◌≡◌, refl, ap, false, arith}
use mathlib.Core.Path.{subst}
use native.Mathlib.Nat.{zero-add}
use gomodbus.Manager.Queue.{
  Reading, System, Step, Reach, started, by_reader, idle, sending, received, begin, send, hand,
  leave, finish, take, call, unlock, exit, stop, here, next,
}

-- A read that has filled the channel while the goroutine, which has taken one group, waits for the
-- mutex that the read holds.
abbrev pub stuck : ℕ → ℕ → System
stuck capacity n = record {
  lock = by_reader;
  reading = sending (suc n);
  consumer = received;
  queued = capacity;
  closed = false;
}

-- The same with some of the channel left.
abbrev filling : ℕ → ℕ → System
filling k n = record {
  lock = by_reader;
  reading = sending n;
  consumer = received;
  queued = k;
  closed = false;
}

abbrev left : Reading → ℕ
left idle = 0
left (sending n) = n

stuck-Step : (capacity groups n : ℕ) (t : System) → ¬ Step capacity groups (stuck capacity n) t
stuck-Step capacity groups n t (begin l c) = cc
stuck-Step capacity groups n t (send k e room) = omega arith
stuck-Step capacity groups n t (hand k e empty w) = cc
stuck-Step capacity groups n t (leave k e c) = cc
stuck-Step capacity groups n t (finish e) = omega (arith, ap left e)
stuck-Step capacity groups n t (take k w e) = cc
stuck-Step capacity groups n t (call r l) = cc
stuck-Step capacity groups n t (unlock c) = cc
stuck-Step capacity groups n t (exit w c) = cc
stuck-Step capacity groups n t (stop l c) = cc

-- The sends that fill the channel.
filling-Reach :
    (capacity groups n k : ℕ)
    → Reach capacity groups (filling 0 (k + n))
    → k ≤ capacity
    → Reach capacity groups (filling k n)
filling-Reach capacity groups n zero r h =
    subst (λ m. Reach capacity groups (filling 0 m)) (zero-add n) r
filling-Reach capacity groups n (suc k) r h =
    let count : suc k + n ≡ k + suc n = omega arith in
    let before : Reach capacity groups (filling k (suc n)) =
      filling-Reach capacity groups (suc n) k (rw count at r) (omega arith) in
    next before (send n refl (omega arith))

-- When a read gives at least two groups more than the channel holds, the manager can come to a state
-- in which the read is not finished and no step is possible any more: the read waits for room in the
-- channel while it holds the mutex, and the goroutine that would make room waits for the mutex.
pub deadlock_reachable :
    (capacity groups : ℕ)
    → capacity + 2 ≤ groups
    → (n : ℕ) × Reach capacity groups (stuck capacity n)
      × ¬ ((t : System) × Step capacity groups (stuck capacity n) t)
deadlock_reachable capacity groups h =
    let n = groups - (capacity + 2) in
    let count : groups ≡ suc (capacity + suc n) = omega arith in
    let begun : Reach capacity groups
        (record started { lock = by_reader; reading = sending groups }) =
      next here (begin refl refl) in
    let handed : Reach capacity groups (filling 0 (capacity + suc n)) =
      next begun (hand (capacity + suc n) (ap sending count) refl refl) in
    (
      n,
      filling-Reach capacity groups (suc n) capacity handed (omega arith),
      λ x. stuck-Step capacity groups n x.0 x.1,
    )
