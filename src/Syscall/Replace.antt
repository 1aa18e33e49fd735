-- ===== src/Syscall/Replace.antt =====
-- kernel/src/syscall/mod.rs: `sys_exec` with `exec_current` of kernel/src/task/process.rs.
use alexos.Base.{ℕ, ◌≡◌, ◌≢◌, Bool, true, Option, some, List}
use alexos.Base.Words.{Run, ok, panic, ◌>>=◌}
use alexos.Task.Process.Image.{Hart, UserTask, Execed, exec_current}
use alexos.Mm.PageTable.{PageTable}
use alexos.Loader.{Load, panics, LoadedImage, load}
use alexos.Trap.{TrapFrame}
use alexos.Trap.Frame.{from_user}
use alexos.Syscall.{Reply, value, error}
use alexos.Syscall.Exec.{exec_strings}

-- What `exec` leaves of the task that calls it: on an error the task as it was, and otherwise the
-- same process, which starts in user mode.
abbrev pub Ends : {W : Type 0} → UserTask W → Run (Reply × UserTask W) → Type 0
Ends task panic = ⊥
Ends task (ok (error e, t)) = t ≡ task
Ends task (ok (value n, t)) =
    (f : TrapFrame) × (n ≡ 0)
    × (t.pid ≡ task.pid)
    × (t.inner.parent ≡ task.inner.parent)
    × (t.inner.children ≡ task.inner.children)
    × (t.frame ≡ some f)
    × (from_user f ≡ true)

module _ {W : Type 0} (copy : ℕ → ℕ → Option (List ℕ)) (cstr : ℕ → ℕ → Option (List ℕ))
    (find : List ℕ → Option (List ℕ)) (load : List ℕ → Load (LoadedImage W))
    (push : W → ℕ → ℕ → Bool × W) (store : W → ℕ → List ℕ → Option W) (duplicate : W → Option W)
    (h : Hart) (safe : (name image : List ℕ) → find name ≡ some image → load image ≢ panics) where
  abbrev exec : UserTask W → List ℕ → List ℕ → List (List ℕ) → Run (Execed × UserTask W)
  exec = exec_current load push store duplicate h

  run_strings : UserTask W → Run (Option (List ℕ × List (List ℕ))) → Run (Reply × UserTask W)
  run_strings task r = do strings ← r; exec_strings copy cstr find exec task strings
