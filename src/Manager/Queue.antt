-- ===== src/Manager/Queue.antt =====
-- enhancement-register-manager.go: `ReadGroupedData`, the goroutine of `Start` and `Stop`, which run at
-- the same time over one mutex and one channel. A step is what one of them does between two
-- places where it may wait.
use gomodbus.Prelude.{ℕ, suc, ◌≤◌, ◌<◌, ◌≡◌, ◌≢◌, refl, Bool, true, false, arith}

-- Who holds `mu`.
pub data Lock : Type 0 where
  free by_reader by_consumer : Lock

-- `ReadGroupedData` with the groups that are left to send.
pub data Reading : Type 0 where
  idle : Reading
  sending : ℕ → Reading

-- The goroutine of `Start`: at its select, with a group that it has received, in the callback, or
-- returned.
pub data Consumer : Type 0 where
  waiting received calling returned : Consumer

pub record System : Type 0 where
  pub lock : Lock
  pub reading : Reading
  pub consumer : Consumer
  pub queued : ℕ
  pub closed : Bool

-- The channel has a capacity; each read gives a number of groups.
pub data Step (capacity groups : ℕ) (s : System) : System → Type 0 where
  -- `ReadGroupedData` takes the mutex; it returns at once when the manager is closed.
  begin :
      s.lock ≡ free
      → s.closed ≡ false
      → Step capacity groups s (record s { lock = by_reader; reading = sending groups })
  -- `m.dataQueue <- group`, into the buffer
  send :
      (n : ℕ)
      → s.reading ≡ sending (suc n)
      → s.queued < capacity
      → Step capacity groups s (record s { reading = sending n; queued = suc s.queued })
  -- `m.dataQueue <- group`, to a consumer that waits
  hand :
      (n : ℕ)
      → s.reading ≡ sending (suc n)
      → s.queued ≡ 0
      → s.consumer ≡ waiting
      → Step capacity groups s (record s { reading = sending n; consumer = received })
  -- `<-m.exitSignal` in `ReadGroupedData`, and the deferred unlock
  leave :
      (n : ℕ)
      → s.reading ≡ sending n
      → s.closed ≡ true
      → Step capacity groups s (record s { lock = free; reading = idle })
  -- the end of the loop, and the deferred unlock
  finish : s.reading ≡ sending 0 → Step capacity groups s (record s { lock = free; reading = idle })
  -- `<-m.dataQueue` in the goroutine
  take :
      (n : ℕ)
      → s.consumer ≡ waiting
      → s.queued ≡ suc n
      → Step capacity groups s (record s { consumer = received; queued = n })
  -- `m.mu.Lock()` and the call of the callback
  call :
      s.consumer ≡ received
      → s.lock ≡ free
      → Step capacity groups s (record s { lock = by_consumer; consumer = calling })
  -- the end of the callback and `m.mu.Unlock()`
  unlock :
      s.consumer ≡ calling → Step capacity groups s (record s { lock = free; consumer = waiting })
  -- `<-m.exitSignal`, or the closed channel, in the goroutine
  exit :
      s.consumer ≡ waiting
      → s.closed ≡ true
      → Step capacity groups s (record s { consumer = returned })
  -- `Stop`, which closes both channels under the mutex
  stop : s.lock ≡ free → s.closed ≡ false → Step capacity groups s (record s { closed = true })

-- A manager that was started.
abbrev pub started : System
started = record { lock = free; reading = idle; consumer = waiting; queued = 0; closed = false }

pub data Reach (capacity groups : ℕ) : System → Type 0 where
  here : Reach capacity groups started
  next :
      {s t : System} → Reach capacity groups s → Step capacity groups s t → Reach capacity groups t

-- A read that sends holds the lock and goes over open channels.
abbrev pub ReaderHolds : Reading → Lock → Bool → Type 0
ReaderHolds idle l c = Unit {0}
ReaderHolds (sending n) l c = (l ≡ by_reader) × (c ≡ false)

-- A callback runs under the lock.
abbrev pub ConsumerHolds : Consumer → Lock → Type 0
ConsumerHolds calling l = l ≡ by_consumer
ConsumerHolds _ l = Unit {0}

pub record IsConsistent (capacity : ℕ) (s : System) : Type 0 where
  pub reader : ReaderHolds s.reading s.lock s.closed
  pub callback : ConsumerHolds s.consumer s.lock
  pub fits : s.queued ≤ capacity

-- Who does not hold the lock is in no critical section, whoever takes the lock then.
not_calling :
    (c : Consumer) (k : Lock) → ConsumerHolds c k → k ≢ by_consumer → (l : Lock) → ConsumerHolds c l
not_calling waiting k h n l = tt
not_calling received k h n l = tt
not_calling calling k h n l = absurd (n h)
not_calling returned k h n l = tt

not_sending :
    (r : Reading) (k : Lock) (c : Bool)
    → ReaderHolds r k c
    → k ≢ by_reader
    → (l : Lock) (d : Bool) → ReaderHolds r l d
not_sending idle k c h n l d = tt
not_sending (sending m) k c h n l d = absurd (n h.0)

Step-IsConsistent :
    {capacity groups : ℕ} {s t : System}
    → Step capacity groups s t
    → IsConsistent capacity s
    → IsConsistent capacity t
Step-IsConsistent {s = s} (begin l c) h = record {
  reader = (refl, c);
  callback = not_calling s.consumer s.lock h.callback (rw l (λ p. cc)) by_reader;
  fits = h.fits;
}
Step-IsConsistent (send n e room) h = record {
  reader = rw e at h.reader;
  callback = h.callback;
  fits = omega arith;
}
Step-IsConsistent (hand n e empty w) h = record {
  reader = rw e at h.reader;
  callback = tt;
  fits = h.fits;
}
Step-IsConsistent {s = s} (leave n e c) h = record {
  reader = tt;
  callback = not_calling s.consumer s.lock h.callback (rw (rw e at h.reader).0 (λ p. cc)) free;
  fits = h.fits;
}
Step-IsConsistent {s = s} (finish e) h = record {
  reader = tt;
  callback = not_calling s.consumer s.lock h.callback (rw (rw e at h.reader).0 (λ p. cc)) free;
  fits = h.fits;
}
Step-IsConsistent (take n w e) h = record { reader = h.reader; callback = tt; fits = omega arith }
Step-IsConsistent {s = s} (call r l) h = record {
  reader = not_sending s.reading s.lock s.closed h.reader (rw l (λ p. cc)) by_consumer s.closed;
  callback = refl;
  fits = h.fits;
}
Step-IsConsistent {s = s} (unlock c) h = record {
  reader =
      not_sending s.reading s.lock s.closed h.reader (rw (rw c at h.callback) (λ p. cc)) free
        s.closed;
  callback = tt;
  fits = h.fits;
}
Step-IsConsistent (exit w c) h = record { reader = h.reader; callback = tt; fits = h.fits }
Step-IsConsistent {s = s} (stop l c) h = record {
  reader = not_sending s.reading s.lock s.closed h.reader (rw l (λ p. cc)) s.lock true;
  callback = h.callback;
  fits = h.fits;
}

-- Whatever the goroutines of a manager do, in any order: a read that sends a group holds the lock and
-- sends over open channels, so that no send meets a closed channel; a callback runs under the lock,
-- so that it never runs during a read; and the channel holds no more than its capacity.
pub Reach-IsConsistent :
    {capacity groups : ℕ} {s : System} → Reach capacity groups s → IsConsistent capacity s
Reach-IsConsistent here = record { reader = tt; callback = tt; fits = omega arith }
Reach-IsConsistent (next r step) = Step-IsConsistent step (Reach-IsConsistent r)
