-- ===== src/Task/Process/Tests.antt =====
-- The program break and the argument copies, at concrete ones.
use alexos.Base.{ℕ, suc, [], none, true, false, Bool}
use alexos.Task.{TaskInner, ready}
use alexos.Task.Process.{Process}

abbrev program : TaskInner
program = record {
  state = ready;
  level = 0;
  ticks = 0;
  needs_resched = false;
  wakeup_pending = false;
  exit_code = 0;
  brk = 0x1000_0000;
  heap_top = 0x1000_0000;
  parent = none;
  children = [];
}

-- An address space that takes every region and counts them.
abbrev count_region : ℕ → ℕ → ℕ → Bool × ℕ
count_region w from to = (true, suc w)

abbrev process : Process ℕ
process = record { inner = program; space = 0 }
