-- ===== src/Sync/Wait.antt =====
-- kernel/src/sync/wait.rs: wait queues, the parking mutex and the semaphore, over the scheduler of
-- one hart. A call that parks its caller is cut at the switch: the first half ends there, and the
-- second runs when the task is scheduled again.
use alexos.Base.{
  ℕ, ◌+◌, ◌-◌, Bool, true, false, none, some, List, [], ◌∷◌, ◌++◌, ◌==◌, ltb, if◌then◌else◌, length,
}
use alexos.Base.Words.{Run, ok, panic, ◌>>=◌}
use alexos.Task.Scheduler.{Scheduler, wake, block_current}

abbrev pub WaitQueue : Type 0
WaitQueue = List ℕ

-- A wait queue and the scheduler that its operations work on.
pub record Waiting : Type 0 where
  pub waiters : WaitQueue
  pub sched : Scheduler

-- The first entry of a task is taken out of the queue.
unfoldable pub remove_first : ℕ → WaitQueue → WaitQueue
remove_first t [] = []
remove_first t (u ∷ us) = if u == t then us else u ∷ remove_first t us

-- `wait`, up to the switch.
unfoldable pub wait_begin : Waiting → Run Waiting
unfolding block_current
wait_begin w = elim w.sched.current [
  | none ↦ panic
  | some t ↦ do s ← block_current w.sched; ok (record { waiters = w.waiters ++ t ∷ []; sched = s })
]

-- `wait`, after the switch back to task `t`.
unfoldable pub wait_end : Waiting → ℕ → Waiting
unfolding remove_first
wait_end w t = record w { waiters = remove_first t w.waiters }

unfoldable pub wake_one : Waiting → Waiting
unfolding wake
wake_one w = elim w.waiters [ [] ↦ w | t ∷ ts ↦ record { waiters = ts; sched = wake w.sched t } ]

-- The wakeups of `wake_all`, in the order of the queue.
unfoldable pub wake_each : List ℕ → Scheduler → Scheduler
unfolding wake
wake_each [] s = s
wake_each (t ∷ ts) s = wake_each ts (wake s t)

unfoldable pub wake_all : Waiting → Waiting
unfolding wake_each
wake_all w = record { waiters = []; sched = wake_each w.waiters w.sched }

unfoldable pub queue_len : Waiting → ℕ
queue_len w = length w.waiters

-- `Mutex`, without its data.
pub record Mutex : Type 0 where
  pub locked : Bool
  pub waiting : Waiting

-- `try_lock`: whether the guard was given. One round of `lock` begins with it.
unfoldable pub try_lock : Mutex → Bool × Mutex
try_lock m = if m.locked then (false, m) else (true, record m { locked = true })

-- The drop of a `MutexGuard`.
unfoldable pub unlock : Mutex → Mutex
unfolding wake_one
unlock m = record { locked = false; waiting = wake_one m.waiting }

-- `Semaphore`; the count of permits never goes below 0 when it starts there.
pub record Semaphore : Type 0 where
  pub count : ℕ
  pub waiting : Waiting

-- One round of `acquire`: whether a permit was taken.
unfoldable pub try_acquire : Semaphore → Bool × Semaphore
try_acquire s = if ltb 0 s.count then (true, record s { count = s.count - 1 }) else (false, s)

unfoldable pub release : Semaphore → Semaphore
unfolding wake_one
release s = record { count = s.count + 1; waiting = wake_one s.waiting }
