-- ===== src/Task/Process/Image.antt =====
-- kernel/src/task/process.rs: `new_user`, `fork_from` and `exec_current`. The address space is a state
-- `W`; loading an image, mapping a region and storing bytes are parameters. What the hart and the
-- kernel space read enters as `Hart`.
pub mod Exec
mod Tests
use alexos.Base.{ℕ, ◌-◌, Bool, Option, none, some, List, update, if◌then◌else◌}
use alexos.Base.Words.{Run, ok, panic, ◌>>=◌}
use alexos.Task.{TaskInner, new_inner}
use alexos.Task.Process.{user_stack_top, user_stack_size, image_brk, fork_inner, Pushed, push_args}
use alexos.Loader.{LoadError, Load, done, refused, panics, LoadedImage}
use alexos.Trap.{TrapFrame, set_return}
use alexos.Trap.Frame.{new_user_frame}

-- `sstatus`, the kernel's `satp` and the hart's number.
pub record Hart : Type 0 where
  pub status : ℕ
  pub kernel_satp : ℕ
  pub id : ℕ

-- A user task; `kernel_sp` is the top of its kernel stack.
pub record UserTask (W : Type 0) : Type 0 where
  pub pid : ℕ
  pub name : List ℕ
  pub inner : TaskInner
  pub kernel_sp : ℕ
  pub space : Option W
  pub frame : Option TrapFrame

pub data ExecError : Type 0 where
  bad_image : LoadError → ExecError
  out_of_memory : ExecError

-- What `exec_current` returns.
pub data Execed : Type 0 where
  replaced : Execed
  failed : ExecError → Execed

-- The frame of a task that starts at `entry`, with `argc` and `argv` in `a0` and `a1`.
unfoldable pub start_frame : Hart → ℕ → ℕ → Pushed → TrapFrame
unfolding new_user_frame
start_frame h kernel_sp entry p =
    let f = new_user_frame h.status entry p.sp kernel_sp h.kernel_satp in
    record f { kernel_hartid = h.id; x = update (update f.x 10 p.argc) 11 p.argv }

module _ {W : Type 0} (load : List ℕ → Load (LoadedImage W)) (push : W → ℕ → ℕ → Bool × W)
    (store : W → ℕ → List ℕ → Option W) (duplicate : W → Option W) where
  -- `map_user_stack`
  unfoldable pub map_user_stack : W → Option (ℕ × W)
  map_user_stack w =
      let (mapped, w') = push w (user_stack_top - user_stack_size) user_stack_top in
      if mapped then some (user_stack_top, w') else none

  -- The new space with the stack and the arguments in it.
  unfoldable pub build_stack : W → List (List ℕ) → Run (Option (Pushed × W))
  unfolding map_user_stack push_args
  build_stack w args = elim (map_user_stack w) [
    | none ↦ ok none
    | some (top, w') ↦ push_args store w' top args
  ]

  -- The rest of `exec_current` behind the new stack; the old space is dropped where the new one
  -- replaces it.
  unfoldable pub install :
      Hart → UserTask W → List ℕ → LoadedImage W → Option (Pushed × W) → Execed × UserTask W
  unfolding start_frame image_brk
  install h task name l none = (failed out_of_memory, task)
  install h task name l (some (p, w)) = (
    replaced,
    record task {
      name = name;
      inner = image_brk l.brk task.inner;
      frame = some (start_frame h task.kernel_sp l.entry p);
      space = some w;
    },
  )

  -- The rest behind the loader.
  unfoldable pub exec_loaded :
      Hart → UserTask W → List ℕ → List (List ℕ) → Load (LoadedImage W) → Run (Execed × UserTask W)
  unfolding build_stack install
  exec_loaded h task name args panics = panic
  exec_loaded h task name args (refused e) = ok (failed (bad_image e), task)
  exec_loaded h task name args (done l) = do
    stack ← build_stack l.space args
    ok (install h task name l stack)

  unfoldable pub exec_current :
      Hart → UserTask W → List ℕ → List ℕ → List (List ℕ) → Run (Execed × UserTask W)
  unfolding exec_loaded
  exec_current h task name image args = exec_loaded h task name args (load image)

  -- `new_user`; `stack` is the top of a fresh kernel stack, where there is memory for one.
  unfoldable pub new_user :
      Hart → ℕ → Option ℕ → List ℕ → List ℕ → List (List ℕ) → Run (Option (UserTask W))
  unfolding build_stack start_frame image_brk
  new_user h pid stack name image args = elim (load image) [
    | panics ↦ panic
    | refused e ↦ ok none
    | done l ↦ do
      built ← build_stack l.space args
      elim built [
        | none ↦ ok none
        | some (p, w) ↦ elim stack [
          | none ↦ ok none
          | some top ↦ ok (
              some (record {
                pid = pid;
                name = name;
                inner = image_brk l.brk new_inner;
                kernel_sp = top;
                space = some w;
                frame = some (start_frame h top l.entry p);
              }))
        ]
      ]
  ]

  -- The frame of a forked child: the parent's, with the child's kernel words and a zero in `a0`.
  unfoldable pub child_frame : Hart → ℕ → TrapFrame → TrapFrame
  unfolding set_return
  child_frame h top f =
      set_return (record f { kernel_sp = top; kernel_satp = h.kernel_satp; kernel_hartid = h.id }) 0

  -- `fork_from`
  unfoldable pub fork_from : Hart → ℕ → Option ℕ → UserTask W → TrapFrame → Option (UserTask W)
  unfolding child_frame fork_inner
  fork_from h pid stack parent f = elim parent.space [
    | none ↦ none
    | some own ↦ elim (duplicate own) [
      | none ↦ none
      | some w ↦ elim stack [
        | none ↦ none
        | some top ↦ some (record {
          pid = pid;
          name = parent.name;
          inner = fork_inner parent.pid parent.inner;
          kernel_sp = top;
          space = some w;
          frame = some (child_frame h top f);
        })
      ]
    ]
  ]
