-- ===== src/Sync/Parking.antt =====
-- kernel/src/sync/wait.rs: the parking mutex, taken and released by tasks in any order. A step is one
-- access to the lock's word, to the queue under its lock, or to the state of a task.
pub mod Exclusion
pub mod Lost
pub mod Sleepers
mod Tests
use alexos.Base.{ℕ, Bool, true, false, ◌≡◌, List, [], ◌∷◌, ◌++◌, update}
use alexos.Sync.Wait.{remove_first}

-- Where a task stands in `lock` or in the drop of the guard.
pub data Place : Type 0 where
  outside : Place
  locking : Place  -- before the exchange
  testing : Place  -- in `wait_until`, before the condition
  parking : Place  -- the condition was false
  queued : Place  -- in `wait`, behind `push_back`
  asleep : Place  -- blocked
  returned : Place  -- ready again, its entry may still be in the queue
  holding : Place
  released : Place  -- the guard has stored `false`
  waking : ℕ → Place  -- `wake_one` has taken this task from the queue

-- `pending` is `wakeup_pending` of each task.
pub record Machine : Type 0 where
  pub locked : Bool
  pub waiters : List ℕ
  pub pending : ℕ → Bool
  pub place : ℕ → Place

abbrev pub at : Machine → ℕ → Place → Machine
at m t p = record m { place = update m.place t p }

abbrev pub is_asleep : Place → Bool
is_asleep asleep = true
is_asleep _ = false

-- The steps of task `t`.
pub data Move (m : Machine) (t : ℕ) : Machine → Type 0 where
  lock : m.place t ≡ outside → Move m t (at m t locking)
  take :
      m.place t ≡ locking → m.locked ≡ false → Move m t (record (at m t holding) { locked = true })
  fail : m.place t ≡ locking → m.locked ≡ true → Move m t (at m t testing)
  test_free : m.place t ≡ testing → m.locked ≡ false → Move m t (at m t locking)
  test_held : m.place t ≡ testing → m.locked ≡ true → Move m t (at m t parking)
  park : m.place t ≡ parking → Move m t (record (at m t queued) { waiters = m.waiters ++ t ∷ [] })
  sleep : m.place t ≡ queued → m.pending t ≡ false → Move m t (at m t asleep)
  stay :
      m.place t ≡ queued
      → m.pending t ≡ true
      → Move m t (record (at m t returned) { pending = update m.pending t false })
  leave :
      m.place t ≡ returned
      → Move m t (record (at m t testing) { waiters = remove_first t m.waiters })
  -- a `try_lock` that fails changes nothing
  try_lock :
      m.place t ≡ outside → m.locked ≡ false → Move m t (record (at m t holding) { locked = true })
  unlock : m.place t ≡ holding → Move m t (record (at m t released) { locked = false })
  wake_none : m.place t ≡ released → m.waiters ≡ [] → Move m t (at m t outside)
  wake_one :
      {u : ℕ} {us : List ℕ}
      → m.place t ≡ released
      → m.waiters ≡ u ∷ us
      → Move m t (record (at m t (waking u)) { waiters = us })
  wake :
      {u : ℕ}
      → m.place t ≡ waking u
      → m.place u ≡ asleep
      → Move m t (at (at m t outside) u returned)
  -- `wake` leaves a note with a task that is not blocked
  note :
      {u : ℕ}
      → m.place t ≡ waking u
      → is_asleep (m.place u) ≡ false
      → Move m t (record (at m t outside) { pending = update m.pending u true })

pub data Step (m : Machine) (n : Machine) : Type 0 where
  by : (t : ℕ) → Move m t n → Step m n

pub data Reach (m : Machine) : Machine → Type 0 where
  here : Reach m m
  later : {n o : Machine} → Reach m n → Step n o → Reach m o

abbrev pub start : Machine
start = record { locked = false; waiters = []; pending = λ _. false; place = λ _. outside }
