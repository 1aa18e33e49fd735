-- ===== src/Task/Stack.antt =====
-- kernel/src/task/context.rs: the saved registers of a context, and the kernel stack.
pub mod Fresh
mod Tests
use alexos.Base.{ℕ, ◌+◌, ◌-◌, ◌*◌, ◌/◌, Bool, Option, none, some, List, replicate, update, ◌==◌}
use alexos.Mm.Addr.{page_size, as_ptr}
use alexos.Mm.Frame.{order_for}
use alexos.Mm.Frame.Owned.{Memory, Frame, alloc_order, count}

-- `TaskContext`
pub record TaskContext : Type 0 where
  pub ra : ℕ
  pub sp : ℕ
  pub s : List ℕ

unfoldable pub zeroed : TaskContext
zeroed = record { ra = 0; sp = 0; s = replicate 12 0 }

-- `TaskContext::new`
unfoldable pub new_context : ℕ → ℕ → TaskContext
new_context entry stack_top = record { ra = entry; sp = stack_top; s = replicate 12 0 }

abbrev pub kernel_stack_size : ℕ
kernel_stack_size = 32 * 1024

abbrev pub stack_canary : ℕ
stack_canary = 0xC0DE_CAFE_DEAD_BEEF

-- `KernelStack`
pub record KernelStack : Type 0 where
  pub frames : Frame

unfoldable pub bottom : KernelStack → ℕ
bottom k = as_ptr k.frames.ppn

unfoldable pub top : KernelStack → ℕ
unfolding bottom count
top k = bottom k + count k.frames * page_size

-- `KernelStack::new`: the run is taken and the canary written to its first word.
unfoldable pub new_stack : Memory → Option KernelStack × Memory
unfolding alloc_order bottom
new_stack m =
    let (f, m') = alloc_order m (order_for (kernel_stack_size / page_size)) in
    elim f [
      | none ↦ (none, m')
      | some f ↦
          let k : KernelStack = record { frames = f } in
          (some k, record m' { words = update m'.words (bottom k) stack_canary })
    ]

unfoldable pub canary_intact : Memory → KernelStack → Bool
unfolding bottom
canary_intact m k = m.words (bottom k) == stack_canary

unfoldable pub headroom : KernelStack → ℕ → ℕ
unfolding bottom
headroom k sp = sp - bottom k
