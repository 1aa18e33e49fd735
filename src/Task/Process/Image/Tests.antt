-- ===== src/Task/Process/Image/Tests.antt =====
-- `exec` of a small image, over an address space that takes every region and every copy.
use alexos.Base.{ℕ, suc, Bool, true, Option, none, some, List, [], ◌∷◌, arith}
use alexos.Task.{new_inner}
use alexos.Task.Process.Image.{Hart, UserTask, exec_current}
use alexos.Task.Process.Image.Exec.{Execs, exec_current-Execs}
use alexos.Task.Process.Args.{room_for}
use alexos.Loader.{Load, done, LoadedImage}

abbrev load : List ℕ → Load (LoadedImage ℕ)
load image = done (record { space = 0; entry = 0x1_0000; brk = 0x1_2000 })

abbrev push : ℕ → ℕ → ℕ → Bool × ℕ
push w from to = (true, suc w)

abbrev store : ℕ → ℕ → List ℕ → Option ℕ
store w at bytes = some w

abbrev hart : Hart
hart = record { status = 0x102; kernel_satp = 9; id = 0 }

abbrev shell : UserTask ℕ
shell = record {
  pid = 3;
  name = [];
  inner = new_inner;
  kernel_sp = 0x8000;
  space = some 5;
  frame = none;
}

abbrev echo : List (List ℕ)
echo = (b'e' ∷ b'c' ∷ b'h' ∷ b'o' ∷ []) ∷ (b'a' ∷ []) ∷ []

exec_current-Execs_example :
    Execs load push store some shell [] [] echo
      (exec_current load push store some hart shell [] [] echo)
unfolding room_for
exec_current-Execs_example =
    exec_current-Execs load push store some hart shell [] [] echo (omega arith) (λ e. cc)
