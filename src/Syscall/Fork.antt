-- ===== src/Syscall/Fork.antt =====
-- kernel/src/syscall/mod.rs: `sys_fork`, with `fork_from` of kernel/src/task/process.rs and the way
-- back to user mode of kernel/src/trap/mod.rs.
use alexos.Base.{
  ℕ, ◌+◌, ◌-◌, ◌^◌, ◌<◌, ◌≡◌, refl, Bool, true, Option, none, some, List, [], ◌∷◌, ◌++◌, ltb, ◌==◌,
  if◌then◌else◌, arith,
}
use alexos.Base.Words.{Run, ok, panic}
use alexos.Task.Process.{up, down, fork_inner}
use alexos.Task.Process.Image.{Hart, UserTask, fork_from, child_frame}
use alexos.Loader.{Load, LoadedImage}
use alexos.Trap.{TrapFrame, handle_ecall}
use alexos.Syscall.{enomem, errno_value, Reply, value, error}

-- The word that goes to `a0`.
unfoldable pub reply_word : Reply → ℕ
unfolding errno_value
reply_word (value n) = n
reply_word (error e) = elim (errno_value e) [ up n ↦ n | down n ↦ 2 ^ 64 - n - 1 ]

-- What `sys_fork` leaves: the reply, the parent with the child on its list, and the child, which
-- goes to the scheduler.
pub record Forked (W : Type 0) : Type 0 where
  pub reply : Reply
  pub parent : UserTask W
  pub child : Option (UserTask W)

module _ {W : Type 0} (load : List ℕ → Load (LoadedImage W)) (push : W → ℕ → ℕ → Bool × W)
    (store : W → ℕ → List ℕ → Option W) (duplicate : W → Option W) where
  unfoldable pub adopt : UserTask W → Option (UserTask W) → Forked W
  adopt parent none = record { reply = error enomem; parent = parent; child = none }
  adopt parent (some c) = record {
    reply = value c.pid;
    parent = record parent {
      inner = record (parent.inner) { children = parent.inner.children ++ c.pid ∷ [] };
    };
    child = some c;
  }

  unfoldable pub sys_fork : Hart → ℕ → Option ℕ → UserTask W → TrapFrame → Forked W
  unfolding fork_from adopt
  sys_fork h pid stack parent f =
      adopt parent (fork_from load push store duplicate h pid stack parent f)

  twin : Hart → ℕ → ℕ → UserTask W → TrapFrame → W → UserTask W
  twin h pid top parent f copy = record {
    pid = pid;
    name = parent.name;
    inner = fork_inner parent.pid parent.inner;
    kernel_sp = top;
    space = some copy;
    frame = some (child_frame load push store duplicate h top f);
  }

  fork_from-some :
      (h : Hart) (pid top : ℕ) (parent : UserTask W) (f : TrapFrame) (own copy : W)
      → parent.space ≡ some own
      → duplicate own ≡ some copy
      → fork_from load push store duplicate h pid (some top) parent f
        ≡ some (twin h pid top parent f copy)
  unfolding fork_from twin
  fork_from-some h pid top parent f own copy has copied = rw (has, copied, fork_from) refl

  -- The copy of a task's space.
  abbrev pub duplicate_of : UserTask W → Option W
  duplicate_of parent = elim parent.space [ none ↦ none | some own ↦ duplicate own ]

  -- The call as the trap handler dispatches it, with the frame that it is handed.
  unfoldable pub fork_call : Hart → ℕ → ℕ → UserTask W → TrapFrame → TrapFrame × ℕ × Forked W
  unfolding sys_fork reply_word
  fork_call h pid top parent g =
      let d = sys_fork h pid (some top) parent g in (g, reply_word d.reply, d)

  -- What an `ecall` of `fork` at `pc` comes to: the frame `f` that the parent goes on with, and what
  -- the call has made, with the child's frame `g` and a register `r`.
  abbrev pub Twins : ℕ → ℕ → UserTask W → ℕ → Run (TrapFrame × Forked W) → Type 0
  Twins pc pid parent r panic = ⊥
  Twins pc pid parent r (ok (f, d)) =
      (c : UserTask W) × (g : TrapFrame) × (d.child ≡ some c)
      × (c.space ≡ duplicate_of parent)
      × (c.pid ≡ pid)
      × (c.frame ≡ some g)
      × (f.sepc ≡ pc + 4)
      × (f.x 10 ≡ pid)
      × (g.x 10 ≡ 0)
      × (g.sepc ≡ f.sepc)
      × (g.sstatus ≡ f.sstatus)
      × (g.x r ≡ (if r == 10 then 0 else f.x r))
      × (c.inner.parent ≡ some parent.pid)
      × (c.inner.brk ≡ parent.inner.brk)
      × (d.parent.inner.children ≡ parent.inner.children ++ pid ∷ [])

  -- Where the parent has a space that can be copied and there is a kernel stack for the child, an
  -- `ecall` of `fork`, from the trap frame to the frame that is resumed, makes a child that returns
  -- from the same `ecall` as the parent, at the instruction behind it, with the same registers but for
  -- `a0`, which is 0 in the child and the child's pid in the parent. The child has the copy of the
  -- space and the parent's break and names it as its parent, and the parent has it as its last child.
  pub sys_fork-Twins :
      (h : Hart) (pid top : ℕ) (parent : UserTask W) (f : TrapFrame) (own copy : W) (r : ℕ)
      → parent.space ≡ some own
      → duplicate own ≡ some copy
      → f.sepc + 4 < 2 ^ 64
      → Twins f.sepc pid parent r (handle_ecall (fork_call h pid top parent) f)
  unfolding handle_ecall fork_call sys_fork reply_word twin child_frame fork_inner
  sys_fork-Twins h pid top parent f own copy r has copied fits =
      let advanced = record f { sepc = f.sepc + 4 } in
      let made = fork_from-some h pid top parent advanced own copy has copied in
      let below : ltb (f.sepc + 4) (2 ^ 64) ≡ true = ground arith in
      rw (made, below)
        (
          twin h pid top parent advanced copy,
          child_frame load push store duplicate h top advanced,
          refl,
          rw (has, copied) refl,
          refl,
          refl,
          refl,
          refl,
          refl,
          refl,
          refl,
          ground arith,
          refl,
          refl,
          refl,
        )
