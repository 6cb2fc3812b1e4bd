-- ===== src/Poller.antt =====
-- enhancement-poller.go: the goroutine of the poller's `Start`, the goroutine that each manager's
-- `Start` has made, and the caller of the poller's `Stop`, which run at the same time. A step is what
-- one of them does between two places where it may wait. `Start` and `Stop` are called once, and the
-- callbacks for data are set before. A group stands for the slice that is passed on, not for what it
-- holds: the next read of a manager writes to the same registers.
pub mod Order
pub mod Stop
use gomodbus.Prelude.{
  ℕ, suc, ◌<◌, ◌≡◌, ◌≢◌, Bool, true, false, List, [], ◌∷◌, ◌++◌, ◌==◌, if◌then◌else◌, length,
}

-- The goroutine of a `RegisterStream`: at its select, in the callback, or returned.
pub data Consumer : Type 0 where
  waiting calling returned : Consumer

-- The caller of `Stop`: not there yet, in `dp.wg.Wait()`, at a manager of the loop, or back.
pub data Caller : Type 0 where
  running joining : Caller
  stopping : ℕ → Caller
  stopped : Caller

-- The goroutine of the poller: at its select, before the read of a manager, in `ReadAndStream` with
-- the groups that are left to push, or returned.
pub data Loop (G : Type 0) : Type 0 where
  selecting ended : Loop G
  reading : ℕ → Loop G
  pushing : ℕ → List G → Loop G

-- A `ModbusRegisterManager`: the groups of its channel, whether `stopCh` is closed, its goroutine,
-- and as history the groups that its reads gave and those that the goroutine has received, each of
-- which it gives to the callback if there is one.
pub record Manager (G : Type 0) : Type 0 where
  pub read : List G
  pub queue : List G
  pub taken : List G
  pub closed : Bool
  pub consumer : Consumer

-- A `ModbusDevicePoller` that runs: its managers by their index, whether `stopCh` is closed, its
-- goroutine, and the caller of `Stop`.
pub record System (G : Type 0) : Type 0 where
  pub managers : ℕ → Manager G
  pub closed : Bool
  pub loop : Loop G
  pub caller : Caller

-- What stays the same: how many managers there are, the capacity of each channel, whether there is
-- a callback for its data, and the groups that a read of it may give, which its device decides.
pub record Setup (G : Type 0) : Type 1 where
  pub count : ℕ
  pub capacity : ℕ → ℕ
  pub has_on_data : ℕ → Bool
  pub Gives : ℕ → List G → Type 0

-- The managers with another one at an index.
unfoldable pub set : {A : Type 0} → ℕ → A → (ℕ → A) → ℕ → A
set i v f j = if j == i then v else f j

module _ {G : Type 0} where
  -- The goroutine of a stream has received a group.
  abbrev pub receive : Bool → G → List G → Manager G → Manager G
  receive has_on_data g queue m = record m {
    taken = m.taken ++ (g ∷ []);
    queue = queue;
    consumer = if has_on_data then calling else waiting;
  }

  -- `Push` into the buffer.
  abbrev pub enqueue : G → Manager G → Manager G
  enqueue g m = record m { queue = m.queue ++ (g ∷ []) }

  -- `Stop` of a stream.
  abbrev pub close_stream : Manager G → Manager G
  close_stream m = record m { closed = true }

  -- The groups that `ReadAndStream` has read and goes on to push.
  abbrev pub add_read : List G → Manager G → Manager G
  add_read gs m = record m { read = m.read ++ gs }

  pub data Step (setup : Setup G) (s : System G) : System G → Type 0 where
    -- `<-ticker.C`, and the start of the loop over the managers
    tick : s.loop ≡ selecting → Step setup s (record s { loop = reading 0 })
    -- `<-dp.stopCh`, and `dp.wg.Done()`
    quit : s.loop ≡ selecting → s.closed ≡ true → Step setup s (record s { loop = ended })
    -- the end of the loop over the managers
    round : s.loop ≡ reading setup.count → Step setup s (record s { loop = selecting })
    -- `m.Scheduler.ReadGrouped()`
    poll :
        (i : ℕ) (gs : List G)
        → s.loop ≡ reading i
        → i < setup.count
        → setup.Gives i gs
        → Step setup s (record s {
          loop = pushing i gs;
          managers = set i (add_read gs (s.managers i)) s.managers;
        })
    -- `rs.dataCh <- data`, into the buffer
    push :
        (i : ℕ) (g : G) (gs : List G)
        → s.loop ≡ pushing i (g ∷ gs)
        → length (s.managers i).queue < setup.capacity i
        → Step setup s (record s {
          loop = pushing i gs;
          managers = set i (enqueue g (s.managers i)) s.managers;
        })
    -- `rs.dataCh <- data`, to a goroutine that waits
    hand :
        (i : ℕ) (g : G) (gs : List G)
        → s.loop ≡ pushing i (g ∷ gs)
        → (s.managers i).queue ≡ []
        → (s.managers i).consumer ≡ waiting
        → Step setup s (record s {
          loop = pushing i gs;
          managers = set i (receive (setup.has_on_data i) g [] (s.managers i)) s.managers;
        })
    -- `<-rs.stopCh` in `Push`, which loses the group
    lose :
        (i : ℕ) (g : G) (gs : List G)
        → s.loop ≡ pushing i (g ∷ gs)
        → (s.managers i).closed ≡ true
        → Step setup s (record s { loop = pushing i gs })
    -- the end of the loop over the groups
    pushed : (i : ℕ) → s.loop ≡ pushing i [] → Step setup s (record s { loop = reading (suc i) })
    -- `data, ok := <-rs.dataCh` in the goroutine of a stream
    take :
        (i : ℕ) (g : G) (gs : List G)
        → i < setup.count
        → (s.managers i).consumer ≡ waiting
        → (s.managers i).queue ≡ g ∷ gs
        → Step setup s (record s {
          managers = set i (receive (setup.has_on_data i) g gs (s.managers i)) s.managers;
        })
    -- the callback returns
    back :
        (i : ℕ)
        → (s.managers i).consumer ≡ calling
        → Step setup s (record s {
          managers = set i (record (s.managers i) { consumer = waiting }) s.managers;
        })
    -- `<-rs.stopCh` in the goroutine of a stream
    exit :
        (i : ℕ)
        → (s.managers i).consumer ≡ waiting
        → (s.managers i).closed ≡ true
        → Step setup s (record s {
          managers = set i (record (s.managers i) { consumer = returned }) s.managers;
        })
    -- `close(dp.stopCh)` of `Stop`
    stop : s.caller ≡ running → Step setup s (record s { closed = true; caller = joining })
    -- `dp.wg.Wait()`
    join : s.caller ≡ joining → s.loop ≡ ended → Step setup s (record s { caller = stopping 0 })
    -- `mgr.Stop()`, the `close(rs.stopCh)` of a manager
    close :
        (i : ℕ)
        → s.caller ≡ stopping i
        → i < setup.count
        → Step setup s (record s {
          caller = stopping (suc i);
          managers = set i (close_stream (s.managers i)) s.managers;
        })
    -- the end of the loop over the managers in `Stop`
    done : s.caller ≡ stopping setup.count → Step setup s (record s { caller = stopped })

  -- `NewModbusRegisterManager`, and its `Start`
  abbrev pub started_manager : Manager G
  started_manager = record { read = []; queue = []; taken = []; closed = false; consumer = waiting }

  -- The end of the poller's `Start`.
  abbrev pub started : System G
  started = record {
    managers = λ i. started_manager;
    closed = false;
    loop = selecting;
    caller = running;
  }

  -- The states that a number of steps leads to.
  pub data Steps (setup : Setup G) (s : System G) : System G → Type 0 where
    here : Steps setup s s
    next : {t u : System G} → Steps setup s t → Step setup t u → Steps setup s u
