-- ===== src/Task/Scheduler/Invariant.antt =====
-- kernel/src/task/scheduler.rs: the states that one hart can reach between its steps.
use alexos.Base.{ℕ, ◌+◌, ◌-◌, ◌≤◌, ◌<◌, ◌≡◌, ◌≢◌, ◌⊎◌, refl, Option, none, some, ◌∙◌, arith}
use alexos.Base.Words.{ok, ok-injective}
use mathlib.Core.Path.{subst}
use alexos.Task.{TaskState, ready, running, blocked, zombie, priority_levels}
use alexos.Task.Scheduler.{
  Scheduler, RunQueue, push, admit, wake, switch_to_idle, on_timer_tick, settle_previous, pick_next,
  idle_turn, pop,
}
use alexos.Task.Scheduler.Queue.{queued, queued-push, queued-spawned, pop-Taken}

-- For one task: it is queued at most once, and only while it is ready; it runs only as the hart's
-- current task; while it waits in `previous` it is not queued; its level is one of the three.
pub record InvAt (s : Scheduler) (t : ℕ) : Type 0 where
  pub once : queued t s.queue ≤ 1
  pub listed : 0 < queued t s.queue → (s.tasks t).state ≡ ready
  pub at_hart : s.current ≡ some t → (s.tasks t).state ≡ running
  pub runs : (s.tasks t).state ≡ running → s.current ≡ some t
  pub parked : s.previous ≡ some t → queued t s.queue ≡ 0
  pub low : (s.tasks t).level < priority_levels
  pub apart : (s.current ≡ none) ⊎ (s.previous ≡ none)

abbrev pub Inv : Scheduler → Type 0
Inv s = (t : ℕ) → InvAt s t

-- A task that is admitted is new: ready, on no queue and not on the hart.
pub admit-Inv :
    (s : Scheduler) (u : ℕ)
    → (s.tasks u).state ≡ ready
    → queued u s.queue ≡ 0
    → s.previous ≢ some u
    → Inv s
    → Inv (admit s u)
unfolding admit
admit-Inv s u fresh absent away inv t = ground (
  arith,
  inv t,
  inv u,
  queued-push t u 0 (record (s.queue) { spawned = s.queue.spawned + 1 }),
  queued-spawned t (s.queue.spawned + 1) s.queue,
)

pub wake-Inv : (s : Scheduler) (u : ℕ) → s.previous ≡ none → Inv s → Inv (wake s u)
unfolding wake
wake-Inv s u settled inv t =
    ground (arith, inv t, inv u, queued-push t u ((s.tasks u).level - 1) s.queue)

pub tick-Inv : (s : Scheduler) → Inv s → Inv (on_timer_tick s)
unfolding on_timer_tick
tick-Inv s inv t = ground (arith, inv t)

pub switch-Inv :
    (s : Scheduler) (state : TaskState) {s' : Scheduler}
    → state ≢ running
    → switch_to_idle s state ≡ ok s'
    → Inv s
    → Inv s'
unfolding switch_to_idle
switch-Inv s state stops e inv t = ground (arith, inv t)

settle_at :
    (s : Scheduler) (p : Option ℕ) {s' : Scheduler}
    → s.previous ≡ p
    → settle_previous s ≡ ok s'
    → Inv s
    → Inv s' × (s'.previous ≡ none) × (s'.current ≡ s.current)
unfolding settle_previous
settle_at s none e h inv = (λ t. ground (arith, inv t), ground arith, ground arith)
settle_at s (some p) e h inv = (
  (λ t. ground (arith, inv t, inv p, queued-push t p (s.tasks p).level s.queue)),
  ground arith,
  ground arith,
)

pick_at :
    (s : Scheduler) (r : Option (ℕ × RunQueue))
    → s.current ≡ none
    → s.previous ≡ none
    → pop s.queue ≡ r
    → Inv s
    → Inv (pick_next s)
unfolding pick_next
pick_at s none c p e inv t = rw (e, pick_next) (inv t)
pick_at s (some (u, q)) c p e inv t =
    let at_t = rw e at (pop-Taken t s.queue) in
    let at_u = rw e at (pop-Taken u s.queue) in ground (arith, inv t, inv u)

settle_state :
    (s : Scheduler) (p : ℕ) (state : TaskState)
    → s.previous ≡ some p
    → (s.tasks p).state ≡ state
    → Inv s
    → (s' : Scheduler) × (settle_previous s ≡ ok s')
unfolding settle_previous
settle_state s p ready e h inv =
    (record s { previous = none; queue = push s.queue p (s.tasks p).level }, ground arith)
settle_state s p running e h inv = absurd (ground (arith, inv p))
settle_state s p blocked e h inv = (record s { previous = none }, ground arith)
settle_state s p zombie e h inv = (record s { previous = none }, ground arith)

settle_ok :
    (s : Scheduler) (p : Option ℕ)
    → s.previous ≡ p
    → Inv s
    → (s' : Scheduler) × (settle_previous s ≡ ok s')
unfolding settle_previous
settle_ok s none e inv = (s, ground arith)
settle_ok s (some p) e inv = settle_state s p (s.tasks p).state e refl inv

-- In a state where the invariant holds, a round of the idle loop does not meet a running task that
-- has just switched away, which the code calls unreachable: it comes to a state.
pub idle_turn-ok : (s : Scheduler) → Inv s → (s' : Scheduler) × (idle_turn s ≡ ok s')
unfolding idle_turn
idle_turn-ok s inv = let (m, e) = settle_ok s s.previous refl inv in (pick_next m, rw e)

pub idle_turn-Inv :
    (s : Scheduler) {s' : Scheduler} → s.current ≡ none → idle_turn s ≡ ok s' → Inv s → Inv s'
unfolding idle_turn
idle_turn-Inv s {s'} c h inv =
    let (m, e) = settle_ok s s.previous refl inv in
    let (kept, clear, same) = settle_at s s.previous refl e inv in
    let turned : ok (pick_next m) ≡ ok s' = rw e at h in
    subst Inv (ok-injective turned) (pick_at m (pop m.queue) (same ∙ c) clear refl kept)

-- The steps of one hart. While a task that has switched away is not settled, interrupts are masked,
-- so that no wakeup and no tick comes between `switch_to_idle` and the next round of the idle loop.
pub data Step (s : Scheduler) : Scheduler → Type 0 where
  admits :
      (u : ℕ)
      → (s.tasks u).state ≡ ready
      → queued u s.queue ≡ 0
      → s.previous ≢ some u
      → Step s (admit s u)
  wakes : (u : ℕ) → s.previous ≡ none → Step s (wake s u)
  ticks : s.previous ≡ none → Step s (on_timer_tick s)
  leaves :
      (state : TaskState) {s' : Scheduler}
      → state ≢ running
      → switch_to_idle s state ≡ ok s'
      → Step s s'
  turns : {s' : Scheduler} → s.current ≡ none → idle_turn s ≡ ok s' → Step s s'

pub data Reach (s : Scheduler) : Scheduler → Type 0 where
  here : Reach s s
  later : {t u : Scheduler} → Reach s t → Step t u → Reach s u

Step-Inv : {s t : Scheduler} → Step s t → Inv s → Inv t
Step-Inv {s} (admits u fresh absent away) inv = admit-Inv s u fresh absent away inv
Step-Inv {s} (wakes u settled) inv = wake-Inv s u settled inv
Step-Inv {s} (ticks settled) inv = tick-Inv s inv
Step-Inv {s} (leaves state stops e) inv = switch-Inv s state stops e inv
Step-Inv {s} (turns c e) inv = idle_turn-Inv s c e inv

-- Whatever steps one hart makes from a state in which the invariant holds, every task stays queued
-- at most once and only while ready, only the current task runs, a task that has just switched away
-- is on no queue, and every level stays one of the three.
pub Reach-Inv : {s t : Scheduler} → Reach s t → Inv s → Inv t
Reach-Inv here inv = inv
Reach-Inv (later r st) inv = Step-Inv st (Reach-Inv r inv)
