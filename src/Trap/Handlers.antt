-- ===== src/Trap/Handlers.antt =====
-- kernel/src/trap/mod.rs: `kernel_trap_handler` and `user_trap_handler`. A frame is named by its
-- address. What the handlers call of the timer, the interrupt controller, the scheduler and the system
-- calls enters as `Calls`; a call that switches away comes back with the state of the time of its return.
use alexos.Base.{ℕ, ◌-◌, ◌^◌, Bool, ◌&&◌, Option, none, some, update, if◌then◌else◌}
use alexos.Base.Words.{Run, ok, panic, ◌>>=◌, add_word}
use alexos.Trap.{
  Cause, user_ecall, timer_interrupt, external_interrupt, software_interrupt, decode, TrapFrame,
  set_return,
}

-- The rest of the kernel, the frames in memory, and the frame of the current task.
pub record Machine (K : Type 0) : Type 0 where
  pub kernel : K
  pub frames : ℕ → TrapFrame
  pub own_frame : Option ℕ

-- How a system call ends: it returns a word, or the task is gone.
pub data Called (K : Type 0) : Type 0 where
  returned : ℕ → Machine K → Called K
  gone : Machine K → Called K

-- `on_tick`, `handle_external_interrupt`, the clearing of SSIP, `resched_if_needed`, `dispatch` and
-- `exit_current`.
pub record Calls (K : Type 0) : Type 0 where
  pub tick : Machine K → Machine K
  pub external : Machine K → Machine K
  pub acknowledge : Machine K → Machine K
  pub resched : Machine K → Run (Machine K)
  pub dispatch : ℕ → Machine K → Called K
  pub exit : ℕ → Machine K → Machine K

-- How a trap from user mode ends: a frame is resumed, or the task is gone.
pub data Left (K : Type 0) : Type 0 where
  resumes : ℕ → Machine K → Left K
  ends : Machine K → Left K

-- -11 as an `i32`
abbrev pub kill_code : ℕ
kill_code = 2 ^ 32 - 11

module _ {K : Type 0} (calls : Calls K) where
  abbrev pub write_frame : Machine K → ℕ → TrapFrame → Machine K
  write_frame m p f = record m { frames = update m.frames p f }

  -- The end of the handler: `resched_if_needed`, and then `frame_ptr` of the current task.
  unfoldable pub return_to_user : Machine K → Run (Left K)
  return_to_user m = do
    m' ← calls.resched m
    elim m'.own_frame [ none ↦ panic | some q ↦ ok (resumes q m') ]

  -- The result goes to the frame that the trap came with.
  unfoldable pub after_call : ℕ → Called K → Run (Left K)
  unfolding return_to_user set_return
  after_call p (returned ret m) = return_to_user (write_frame m p (set_return (m.frames p) ret))
  after_call p (gone m) = ok (ends m)

  -- The `match` of `user_trap_handler` on the cause, and what follows it.
  unfoldable pub handle_cause : Cause → ℕ → Machine K → Run (Left K)
  unfolding after_call return_to_user
  handle_cause user_ecall p m = do
    pc ← add_word (m.frames p).sepc 4
    after_call p (calls.dispatch p (write_frame m p (record (m.frames p) { sepc = pc })))
  handle_cause timer_interrupt p m = return_to_user (calls.tick m)
  handle_cause external_interrupt p m = return_to_user (calls.external m)
  handle_cause software_interrupt p m = return_to_user (calls.acknowledge m)
  handle_cause _ p m = ok (ends (calls.exit kill_code m))

  -- `user_trap_handler`, for the word `scause` and the frame at `p`.
  unfoldable pub user_trap_handler : ℕ → ℕ → Machine K → Run (Left K)
  unfolding handle_cause decode
  user_trap_handler scause p m = handle_cause (decode scause) p m

  -- `kernel_trap_handler`; the flags say whether the build has debug assertions, and whether
  -- interrupts are enabled. `fatal` is a panic.
  unfoldable pub kernel_trap_handler : Bool → Bool → ℕ → Machine K → Run (Machine K)
  unfolding decode
  kernel_trap_handler debug enabled scause m =
      if debug && enabled then panic else elim (decode scause) [
        | timer_interrupt ↦ calls.resched (calls.tick m)
        | external_interrupt ↦ calls.resched (calls.external m)
        | software_interrupt ↦ calls.resched (calls.acknowledge m)
        | _ ↦ panic
      ]
