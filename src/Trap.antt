-- ===== src/Trap.antt =====
-- kernel/src/trap/mod.rs, trap/context.rs and timer.rs: the decoding of trap causes, the trap frame,
-- and the deadlines of the timer.
pub mod Decode
pub mod Timer
pub mod Frame
pub mod Handlers
use alexos.Base.{ℕ, ◌+◌, ◌-◌, ◌/◌, ◌%◌, ◌^◌, Bool, true, false, ltb, ◌==◌, if◌then◌else◌, update}
use alexos.Base.Words.{Run, ok, panic, add_word}
use alexos.Mm.Addr.{page_size, user_max_addr, virt_offset}

pub data FaultKind : Type 0 where
  fetch load store : FaultKind

pub data Cause : Type 0 where
  software_interrupt timer_interrupt external_interrupt : Cause
  user_ecall illegal_instruction breakpoint : Cause
  page_fault access_fault : FaultKind → Cause
  unknown : ℕ → Cause

unfoldable pub decode_interrupt : ℕ → ℕ → Cause
decode_interrupt scause code =
    if code == 1
    then software_interrupt
    else if code == 5
    then timer_interrupt
    else if code == 9
    then external_interrupt
    else unknown scause

unfoldable pub decode_exception : ℕ → ℕ → Cause
decode_exception scause code =
    if code == 2
    then illegal_instruction
    else if code == 3
    then breakpoint
    else if code == 5
    then access_fault load
    else if code == 7
    then access_fault store
    else if code == 8
    then user_ecall
    else if code == 12
    then page_fault fetch
    else if code == 13
    then page_fault load
    else if code == 15
    then page_fault store
    else unknown scause

-- `Cause::decode`: the top bit of `scause` marks an interrupt, the rest is the code.
unfoldable pub decode : ℕ → Cause
unfolding decode_interrupt decode_exception
decode scause =
    if scause / 2 ^ 63 == 0
    then decode_exception scause (scause % 2 ^ 63)
    else decode_interrupt scause (scause % 2 ^ 63)

-- `TrapFrame`: the 32 registers, and the words that the entry code keeps beside them.
pub record TrapFrame : Type 0 where
  pub x : ℕ → ℕ
  pub sstatus : ℕ
  pub sepc : ℕ
  pub kernel_sp : ℕ
  pub kernel_satp : ℕ
  pub kernel_trap : ℕ
  pub kernel_hartid : ℕ

unfoldable pub arg : TrapFrame → ℕ → ℕ
arg f n = f.x (10 + n)

unfoldable pub syscall_id : TrapFrame → ℕ
syscall_id f = f.x 17

unfoldable pub set_return : TrapFrame → ℕ → TrapFrame
set_return f v = record f { x = update f.x 10 v }

unfoldable pub set_sp : TrapFrame → ℕ → TrapFrame
set_sp f v = record f { x = update f.x 2 v }

-- The `ecall` branch of `user_trap_handler`: `sepc` is advanced before the call is dispatched, and
-- the result goes to `a0` of the frame that the call leaves; `S` is what else the call leaves.
unfoldable pub handle_ecall :
    {S : Type 0} → (TrapFrame → TrapFrame × ℕ × S) → TrapFrame → Run (TrapFrame × S)
unfolding set_return
handle_ecall dispatch f =
    let (f', ret, s) = dispatch (record f { sepc = f.sepc + 4 }) in
    if ltb (f.sepc + 4) (2 ^ 64) then ok (set_return f' ret, s) else panic

-- The note that `describe_address` prints.
pub data Note : Type 0 where
  null_dereference user_address non_canonical kernel_address : Note

unfoldable pub describe_address : ℕ → Note
describe_address a =
    if ltb a page_size
    then null_dereference
    else if ltb a user_max_addr
    then user_address
    else if ltb a virt_offset
    then non_canonical
    else kernel_address

-- `timer::interval`, of `TIMER_FREQ` and `TICK_MS`.
abbrev pub interval : ℕ
interval = 100_000

-- The deadline that `on_tick` sets, from the last one and the time.
unfoldable pub next_deadline : ℕ → ℕ → ℕ
next_deadline last now = if ltb now (last + interval) then last + interval else now + interval
