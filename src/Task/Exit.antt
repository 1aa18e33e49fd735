-- ===== src/Task/Exit.antt =====
-- kernel/src/task/scheduler.rs: `exit_current`, with `on_exit`, `space_token` and `frame_ptr` of
-- kernel/src/task/process.rs, on the scheduler of one hart. A space is a value of `W`; its drop gives
-- its frames back to the supply `S`.
pub mod Reaped
mod Tests
use alexos.Base.{ℕ, Bool, true, false, Option, none, some, [], update, if◌then◌else◌}
use alexos.Base.Words.{Run, ok, panic, ◌>>=◌}
use alexos.Task.{zombie, TaskInner}
use alexos.Task.Scheduler.{Scheduler, set_task, switch_to_idle}
use alexos.Sync.Wait.{WaitQueue, Waiting, wake_all}
use alexos.Trap.{TrapFrame}

-- The scheduler, what the tasks own beside their `TaskInner`, the queue `child_exit` of each task,
-- whether a task that is named by a weak reference is still there, and the hart's `satp`.
pub record Kernel (W S : Type 0) : Type 0 where
  pub sched : Scheduler
  pub spaces : ℕ → Option W
  pub child_exit : ℕ → WaitQueue
  pub is_alive : ℕ → Bool
  pub satp : ℕ
  pub supply : S

module _ {W S : Type 0} where
  -- `on_exit`: the parent, if it is there, is woken from its queue.
  unfoldable pub on_exit : Kernel W S → ℕ → Kernel W S
  unfolding wake_all
  on_exit k t = elim (k.sched.tasks t).parent [
    | none ↦ k
    | some p ↦
        let w = wake_all (record { waiters = k.child_exit p; sched = k.sched }) in
        if k.is_alive p
        then record k { sched = w.sched; child_exit = update k.child_exit p w.waiters }
        else k
  ]

  module _ (kernel_token : ℕ) (drop : W → S → S) where
    -- The space of the task is left, and then dropped.
    unfoldable pub release_space : Kernel W S → ℕ → Kernel W S
    release_space k t = elim (k.spaces t) [
      | none ↦ k
      | some w ↦ record k {
        spaces = update k.spaces t none;
        satp = kernel_token;
        supply = drop w k.supply;
      }
    ]

    abbrev pub set_exit_code : Kernel W S → ℕ → ℕ → Kernel W S
    set_exit_code k t code = record k {
      sched = set_task k.sched t (record (k.sched.tasks t) { exit_code = code });
    }

    -- The task goes away for good.
    unfoldable pub leave : Kernel W S → Run (Kernel W S)
    unfolding switch_to_idle
    leave k = do s ← switch_to_idle k.sched zombie; ok (record k { sched = s })

    -- The state in which `exit_current` has woken the parent; interrupts may be enabled from here to
    -- the switch, and the task is not a zombie yet.
    unfoldable pub exit_notify : Kernel W S → ℕ → ℕ → Kernel W S
    unfolding release_space on_exit
    exit_notify k t code = on_exit (release_space (set_exit_code k t code) t) t

    -- `exit_current`, up to the switch, where nothing else runs between the wakeup of the parent and the
    -- switch; `code` is the word that holds the code.
    unfoldable pub exit_current : Kernel W S → ℕ → Run (Kernel W S)
    unfolding exit_notify leave
    exit_current k code = elim k.sched.current [
      | none ↦ leave k
      | some t ↦ leave (exit_notify k t code)
    ]

    -- `space_token`, of the `token` of a space.
    unfoldable pub space_token : (W → ℕ) → Kernel W S → ℕ → ℕ
    space_token token k t = elim (k.spaces t) [ none ↦ kernel_token | some w ↦ token w ]

-- `frame_ptr`
unfoldable pub frame_ptr : Option TrapFrame → Run TrapFrame
frame_ptr none = panic
frame_ptr (some f) = ok f
