-- ===== src/Task.antt =====
-- kernel/src/task/mod.rs: tasks. A task is named by its process id; `Arc` is sharing of the name,
-- and the counts of references are not modelled.
pub mod Scheduler
pub mod Process
pub mod Exit
pub mod Stack
use alexos.Base.{ℕ, ◌+◌, Bool, false, Option, none, List, []}

pub data TaskState : Type 0 where
  ready running blocked zombie : TaskState

abbrev pub priority_levels : ℕ
priority_levels = 3

-- `TaskInner` without the saved registers, the kernel stack and the trap frame. `exit_code` is the
-- word that holds the code.
pub record TaskInner : Type 0 where
  pub state : TaskState
  pub level : ℕ
  pub ticks : ℕ
  pub needs_resched : Bool
  pub wakeup_pending : Bool
  pub exit_code : ℕ
  pub brk : ℕ
  pub heap_top : ℕ
  pub parent : Option ℕ
  pub children : List ℕ

-- What `new_kernel` puts into a task.
unfoldable pub new_inner : TaskInner
new_inner = record {
  state = ready;
  level = 0;
  ticks = 0;
  needs_resched = false;
  wakeup_pending = false;
  exit_code = 0;
  brk = 0;
  heap_top = 0;
  parent = none;
  children = [];
}

-- `alloc_pid`: the id, and the counter after it.
unfoldable pub alloc_pid : ℕ → ℕ × ℕ
alloc_pid next_pid = (next_pid, next_pid + 1)
