-- ===== src/Task/Scheduler/Wakeup.antt =====
-- kernel/src/task/scheduler.rs: wakeups around `block_current`, and ticks on the feedback queue.
use alexos.Base.{ℕ, zero, suc, ◌+◌, ◌-◌, ◌≡◌, min, none, some, update, true, false, arith}
use alexos.Base.Words.{ok}
use alexos.Task.{ready, running, blocked, priority_levels}
use alexos.Task.Scheduler.{Scheduler, push, wake, block_current, on_timer_tick, settle_previous}
use alexos.Task.Scheduler.Queue.{queued, queued-push}

-- A task that is woken while it still runs, and then blocks, does not sleep: it leaves the hart ready,
-- with the note consumed, and the idle loop queues it once more.
pub block_current-wake :
    (s : Scheduler) (t : ℕ)
    → s.current ≡ some t
    → (s.tasks t).state ≡ running
    → (s₁ : Scheduler) × (s₂ : Scheduler) × (block_current (wake s t) ≡ ok s₁)
      × ((s₁.tasks t).state ≡ ready)
      × ((s₁.tasks t).wakeup_pending ≡ false)
      × (settle_previous s₁ ≡ ok s₂)
      × (queued t s₂.queue ≡ queued t s.queue + 1)
unfolding block_current wake settle_previous
block_current-wake s t c r =
    let inner = record (s.tasks t) { state = ready; wakeup_pending = false } in
    let s₁ = record s {
      tasks = update (update s.tasks t (record (s.tasks t) { wakeup_pending = true })) t inner;
      current = none;
      previous = some t;
    } in
    let s₂ = record s₁ { previous = none; queue = push s.queue t (s.tasks t).level } in
    (
      s₁,
      s₂,
      ground arith,
      ground arith,
      ground arith,
      ground arith,
      ground (arith, queued-push t t (s.tasks t).level s.queue),
    )

-- A task that sleeps and is woken twice is queued once: the second call only leaves a note.
pub wake-wake :
    (s : Scheduler) (t : ℕ)
    → (s.tasks t).state ≡ blocked
    → (queued t (wake (wake s t) t).queue ≡ queued t s.queue + 1)
      × (((wake (wake s t) t).tasks t).state ≡ ready)
      × (((wake (wake s t) t).tasks t).level ≡ (s.tasks t).level - 1)
unfolding wake
wake-wake s t b = ground (arith, queued-push t t ((s.tasks t).level - 1) s.queue)

-- `n` timer ticks in a row.
pub ticks_of : ℕ → Scheduler → Scheduler
ticks_of zero s = s
ticks_of (suc n) s = ticks_of n (on_timer_tick s)

-- A task that starts an allowance keeps its level for three ticks, and the fourth takes it down by
-- one, to the lowest at most, and starts a new allowance.
pub ticks_of-level :
    (s : Scheduler) (t : ℕ)
    → s.current ≡ some t
    → (s.tasks t).ticks ≡ 0
    → (((ticks_of 3 s).tasks t).level ≡ (s.tasks t).level)
      × (((ticks_of 4 s).tasks t).level ≡ min ((s.tasks t).level + 1) (priority_levels - 1))
      × (((ticks_of 4 s).tasks t).ticks ≡ 0)
      × (((ticks_of 4 s).tasks t).needs_resched ≡ true)
unfolding ticks_of on_timer_tick
ticks_of-level s t c z = ground arith
