-- ===== src/Task/Scheduler.antt =====
-- kernel/src/task/scheduler.rs: the feedback queue and the idle loop of one hart. Each function takes
-- and returns the whole state; a switch of stacks is the return to the idle loop, `idle_turn`.
pub mod Queue
pub mod Service
pub mod Invariant
pub mod Wakeup
mod Tests
use alexos.Base.{
  ℕ, zero, suc, ◌+◌, ◌-◌, min, Bool, true, false, ◌&&◌, Option, none, some, List, [], ◌∷◌, ◌++◌,
  update, leb, if◌then◌else◌, length,
}
use alexos.Base.Words.{Run, ok, panic, ◌>>=◌}
use alexos.Task.{TaskState, ready, running, blocked, TaskInner, priority_levels}

abbrev pub quanta_per_level : ℕ
quanta_per_level = 4

-- `RunQueue`: the queue of each level, 0 the highest.
pub record RunQueue : Type 0 where
  pub levels : ℕ → List ℕ
  pub spawned : ℕ

-- The tasks, the run queue, and the `Cpu` record of the hart.
pub record Scheduler : Type 0 where
  pub tasks : ℕ → TaskInner
  pub queue : RunQueue
  pub current : Option ℕ
  pub previous : Option ℕ

unfoldable pub push : RunQueue → ℕ → ℕ → RunQueue
push q task level =
    let l = min level (priority_levels - 1) in
    record q { levels = update q.levels l (q.levels l ++ task ∷ []) }

-- `find_map` over the levels from `level` on, `count` of them.
unfoldable pub pop_from : ℕ → ℕ → RunQueue → Option (ℕ × RunQueue)
pop_from zero level q = none
pop_from (suc count) level q = elim (q.levels level) [
  | [] ↦ pop_from count (level + 1) q
  | t ∷ ts ↦ some (t, record q { levels = update q.levels level ts })
]

unfoldable pub pop : RunQueue → Option (ℕ × RunQueue)
unfolding pop_from
pop q = pop_from priority_levels 0 q

unfoldable pub queue_len : RunQueue → ℕ
queue_len q = length (q.levels 0) + length (q.levels 1) + length (q.levels 2)

abbrev pub set_task : Scheduler → ℕ → TaskInner → Scheduler
set_task s t inner = record s { tasks = update s.tasks t inner }

unfoldable pub admit : Scheduler → ℕ → Scheduler
unfolding push
admit s t = record s { queue = push (record (s.queue) { spawned = s.queue.spawned + 1 }) t 0 }

abbrev pub is_blocked : TaskState → Bool
is_blocked blocked = true
is_blocked _ = false

unfoldable pub wake : Scheduler → ℕ → Scheduler
unfolding push
wake s t =
    let inner = s.tasks t in
    if is_blocked inner.state
    then (let s' =
          set_task s t (record inner { state = ready; level = inner.level - 1; ticks = 0 }) in
        record s' { queue = push s.queue t (inner.level - 1) })
    else set_task s t (record inner { wakeup_pending = true })

-- `switch_to_idle` up to the switch: the task leaves the hart and waits in `previous`. The check of
-- the stack canary is not modelled.
unfoldable pub switch_to_idle : Scheduler → TaskState → Run Scheduler
switch_to_idle s state = elim s.current [
  | none ↦ panic
  | some t ↦
      let inner = s.tasks t in
      let consumed = is_blocked state && inner.wakeup_pending in
      let left =
        if consumed
        then record inner { state = ready; wakeup_pending = false }
        else record inner { state = state } in
      ok (record s { tasks = update s.tasks t left; current = none; previous = some t })
]

unfoldable pub yield_now : Scheduler → Run Scheduler
unfolding switch_to_idle
yield_now s = switch_to_idle s ready

unfoldable pub block_current : Scheduler → Run Scheduler
unfolding switch_to_idle
block_current s = switch_to_idle s blocked

unfoldable pub on_timer_tick : Scheduler → Scheduler
on_timer_tick s = elim s.current [
  | none ↦ s
  | some t ↦
      let inner = s.tasks t in
      let spent = leb quanta_per_level (inner.ticks + 1) in
      set_task s t (record inner {
        ticks = if spent then 0 else inner.ticks + 1;
        level = if spent then min (inner.level + 1) (priority_levels - 1) else inner.level;
        needs_resched = true;
      })
]

unfoldable pub resched_if_needed : Scheduler → Run Scheduler
unfolding yield_now
resched_if_needed s = elim s.current [
  | none ↦ ok s
  | some t ↦
      if (s.tasks t).needs_resched
      then yield_now (set_task s t (record (s.tasks t) { needs_resched = false }))
      else ok s
]

-- The first half of a round of `run`: what becomes of the task that has just switched away.
unfoldable pub settle_previous : Scheduler → Run Scheduler
unfolding push
settle_previous s = elim s.previous [
  | none ↦ ok s
  | some p ↦
      let s' = record s { previous = none } in
      elim (s.tasks p).state [
        | ready ↦ ok (record s' { queue = push s.queue p (s.tasks p).level })
        | running ↦ panic
        | _ ↦ ok s'
      ]
]

-- The second half: the next task is made current, or the hart waits for an interrupt.
unfoldable pub pick_next : Scheduler → Scheduler
unfolding pop
pick_next s = elim (pop s.queue) [
  | none ↦ s
  | some (t, q) ↦
      let inner = record (s.tasks t) { state = running; needs_resched = false } in
      record s { tasks = update s.tasks t inner; queue = q; current = some t }
]

-- One round of `run`.
unfoldable pub idle_turn : Scheduler → Run Scheduler
unfolding settle_previous pick_next
idle_turn s = do s' ← settle_previous s; ok (pick_next s')

-- `stats`: the runnable tasks, and those ever spawned.
unfoldable pub stats : Scheduler → ℕ × ℕ
unfolding queue_len
stats s = (queue_len s.queue, s.queue.spawned)
