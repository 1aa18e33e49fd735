-- ===== src/Task/Scheduler/Tests.antt =====
-- The scheduler on one hart with tasks 1 and 2.
use alexos.Base.{◌+◌, ◌≡◌, refl, [], ◌∷◌, ◌++◌, none, some, true, false, update, arith}
use alexos.Base.Words.{ok}
use alexos.Task.{TaskInner, ready, running, blocked}
use alexos.Task.Scheduler.{
  Scheduler, RunQueue, push, admit, wake, block_current, settle_previous, idle_turn,
}
use alexos.Task.Scheduler.Queue.{queued}
use alexos.Task.Scheduler.Service.{contents, serve, ahead, behind, push-serve}
use alexos.Task.Scheduler.Invariant.{Inv, idle_turn-ok, here, later, admits, Reach-Inv}
use alexos.Task.Scheduler.Wakeup.{block_current-wake, ticks_of, ticks_of-level}

abbrev fresh : TaskInner
fresh = record {
  state = ready;
  level = 0;
  ticks = 0;
  needs_resched = false;
  wakeup_pending = false;
  exit_code = 0;
  brk = 0;
  heap_top = 0;
  parent = none;
  children = [];
}

abbrev no_tasks : RunQueue
no_tasks = record { levels = λ _. []; spawned = 0 }

-- The hart before any task.
abbrev idle_hart : Scheduler
idle_hart = record { tasks = λ _. fresh; queue = no_tasks; current = none; previous = none }

-- Task 1 runs.
abbrev running_hart : Scheduler
running_hart = record idle_hart {
  tasks = update (λ _. fresh) 1 (record fresh { state = running });
  current = some 1;
}

-- Task 1 sleeps at level 2.
abbrev sleeping_hart : Scheduler
sleeping_hart = record idle_hart {
  tasks = update (λ _. fresh) 1 (record fresh { state = blocked; level = 2 });
}

idle_valid : Inv idle_hart
unfolding queued
idle_valid t = ground arith

Reach-Inv_example : Inv (admit idle_hart 1)
unfolding queued
Reach-Inv_example = Reach-Inv (later here (admits 1 refl refl (λ e. cc))) idle_valid

idle_turn-ok_example : (s : Scheduler) × (idle_turn (admit idle_hart 1) ≡ ok s)
unfolding queued
idle_turn-ok_example =
    idle_turn-ok (admit idle_hart 1)
      (Reach-Inv (later here (admits 1 refl refl (λ e. cc))) idle_valid)

block_current-wake_example :
    (s₁ : Scheduler) × (s₂ : Scheduler) × (block_current (wake running_hart 1) ≡ ok s₁)
    × ((s₁.tasks 1).state ≡ ready)
    × ((s₁.tasks 1).wakeup_pending ≡ false)
    × (settle_previous s₁ ≡ ok s₂)
    × (queued 1 s₂.queue ≡ queued 1 no_tasks + 1)
block_current-wake_example = block_current-wake running_hart 1 refl refl

ticks_of-level_example :
    (((ticks_of 3 running_hart).tasks 1).level ≡ 0)
    × (((ticks_of 4 running_hart).tasks 1).level ≡ 1)
    × (((ticks_of 4 running_hart).tasks 1).ticks ≡ 0)
    × (((ticks_of 4 running_hart).tasks 1).needs_resched ≡ true)
ticks_of-level_example = ticks_of-level running_hart 1 refl refl

-- Two tasks on the middle level and one on the lowest.
abbrev three_tasks : RunQueue
three_tasks = record { levels = update (update (λ _. []) 1 (7 ∷ 8 ∷ [])) 2 (6 ∷ []); spawned = 3 }

push-serve_example :
    serve 4 (push three_tasks 9 1) ≡ ahead 1 three_tasks ++ 9 ∷ behind 1 three_tasks
push-serve_example = push-serve three_tasks 9 1 4 (unfold contents push in omega arith)
