-- ===== src/Syscall/Tests.antt =====
-- System calls of small processes.
use alexos.Base.{
  ℕ, suc, ◌+◌, ◌*◌, ◌&&◌, ltb, refl, Bool, true, Option, none, some, ◌∷◌, [], List, length, ◌==◌,
  if◌then◌else◌, arith,
}
use alexos.Task.{ready, zombie, new_inner}
use alexos.Task.Process.{down}
use alexos.Task.Process.Image.{Hart, UserTask}
use alexos.Mm.PageTable.{PageTable, Tables}
use alexos.Loader.{Load, LoadedImage, Segment, load}
use alexos.Trap.{TrapFrame, handle_ecall}
use alexos.Trap.Frame.{blank}
use alexos.Drivers.Uart.{RxRing}
use alexos.Drivers.Uart.Ring.{IsValid}
use alexos.Syscall.{Child, waitpid_round}
use alexos.Syscall.Waitpid.{Outcome, waitpid_round-Outcome}
use alexos.Syscall.Fork.{fork_call, Twins, sys_fork-Twins}
use alexos.Syscall.Calls.{sys_read, Reads, sys_read-Reads}

-- A live child and a zombie.
abbrev children : List Child
children =
    record { pid = 4; state = ready; exit_code = 0 }
    ∷ record { pid = 5; state = zombie; exit_code = 7 }
    ∷ []

waitpid_round-Outcome_example : Outcome (down 0) children (waitpid_round (down 0) children)
waitpid_round-Outcome_example = waitpid_round-Outcome (down 0) children

-- A table whose page 5 is frame 77: a string at 0x5000, and an array with a pointer to it at 0x5100.
abbrev tables : Tables
tables n i =
    if n == 1
    then if i == 0 then 2 * 1024 + 1 else 0
    else if n == 2
    then if i == 0 then 3 * 1024 + 1 else 0
    else if n == 3
    then if i == 5 then 77 * 1024 + 215 else 0
    else 0

abbrev table : PageTable
table = record { root = 1; frames = 1 ∷ 2 ∷ 3 ∷ [] }

abbrev memory : ℕ → ℕ
memory a =
    if a == 77 * 4096
    then b'l'
    else if a == 77 * 4096 + 1
    then b's'
    else if a == 77 * 4096 + 0x101
    then 0x50
    else 0

abbrev ascii : List ℕ → Bool
ascii _ = true

-- An image of one segment of 4 bytes at 0x1004, read and execute.
abbrev image : List ℕ
image =
    0x7f ∷ b'E' ∷ b'L' ∷ b'F' ∷ 2 ∷ 1 ∷ 1 ∷ 0 ∷ 0 ∷ 0 ∷ 0 ∷ 0 ∷ 0 ∷ 0 ∷ 0 ∷ 0 ∷ 2 ∷ 0 ∷ 243 ∷ 0 ∷ 1
    ∷ 0 ∷ 0 ∷ 0 ∷ 4 ∷ 16 ∷ 0 ∷ 0 ∷ 0 ∷ 0 ∷ 0 ∷ 0 ∷ 64 ∷ 0 ∷ 0 ∷ 0 ∷ 0 ∷ 0 ∷ 0 ∷ 0 ∷ 0 ∷ 0 ∷ 0 ∷ 0
    ∷ 0 ∷ 0 ∷ 0 ∷ 0 ∷ 0 ∷ 0 ∷ 0 ∷ 0 ∷ 64 ∷ 0 ∷ 56 ∷ 0 ∷ 1 ∷ 0 ∷ 0 ∷ 0 ∷ 0 ∷ 0 ∷ 0 ∷ 0 ∷ 1 ∷ 0 ∷ 0
    ∷ 0 ∷ 5 ∷ 0 ∷ 0 ∷ 0 ∷ 120 ∷ 0 ∷ 0 ∷ 0 ∷ 0 ∷ 0 ∷ 0 ∷ 0 ∷ 4 ∷ 16 ∷ 0 ∷ 0 ∷ 0 ∷ 0 ∷ 0 ∷ 0 ∷ 4 ∷ 16
    ∷ 0 ∷ 0 ∷ 0 ∷ 0 ∷ 0 ∷ 0 ∷ 4 ∷ 0 ∷ 0 ∷ 0 ∷ 0 ∷ 0 ∷ 0 ∷ 0 ∷ 4 ∷ 0 ∷ 0 ∷ 0 ∷ 0 ∷ 0 ∷ 0 ∷ 0 ∷ 0 ∷ 16
    ∷ 0 ∷ 0 ∷ 0 ∷ 0 ∷ 0 ∷ 0 ∷ 1 ∷ 2 ∷ 3 ∷ 4 ∷ []

abbrev all_bytes : List ℕ → Bool
all_bytes [] = true
all_bytes (b ∷ bs) = ltb b 256 && all_bytes bs

abbrev programs : List ℕ → Option (List ℕ)
programs name = some image

-- A space that takes every segment, region and copy, and counts them.
abbrev map_segment : ℕ → Segment → Option ℕ
map_segment w s = some (suc w)

abbrev elf : List ℕ → Load (LoadedImage ℕ)
elf = load map_segment (some 0)

abbrev push : ℕ → ℕ → ℕ → Bool × ℕ
push w from to = (true, suc w)

abbrev store : ℕ → ℕ → List ℕ → Option ℕ
store w at bytes = some w

abbrev hart : Hart
hart = record { status = 0x102; kernel_satp = 9; id = 0 }

abbrev shell : UserTask ℕ
shell = record {
  pid = 3;
  name = [];
  inner = new_inner;
  kernel_sp = 0x8000;
  space = some 5;
  frame = none;
}

abbrev trapped : TrapFrame
trapped = record blank { sepc = 0x1_0040; x = λ r. r }

sys_fork-Twins_example :
    Twins elf push store some 0x1_0040 4 shell 8
      (handle_ecall (fork_call elf push store some hart 4 0x9000 shell) trapped)
sys_fork-Twins_example =
    sys_fork-Twins elf push store some hart 4 0x9000 shell trapped 5 5 8 refl refl (omega arith)

-- A ring with two bytes.
abbrev two_bytes : RxRing
two_bytes = record { buf = λ i. i + 0x41; head = 0; tail = 2 }

two_bytes-IsValid : IsValid two_bytes
two_bytes-IsValid = omega arith

abbrev put : ℕ → ℕ → List ℕ → Bool × ℕ
put mem at bytes = (true, mem + length bytes)

sys_read-Reads_example :
    Reads (some put) 0 two_bytes 0 0x1_0000 16 (sys_read (some put) 0 two_bytes 0 0x1_0000 16)
sys_read-Reads_example = sys_read-Reads (some put) 0 two_bytes 0 0x1_0000 16 two_bytes-IsValid
