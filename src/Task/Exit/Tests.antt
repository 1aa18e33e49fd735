-- ===== src/Task/Exit/Tests.antt =====
-- A child with a space exits while its parent sleeps in `waitpid`.
use alexos.Base.{ℕ, ◌≡◌, map, refl, ◌+◌, true, none, some, [], ◌∷◌, update, ◌==◌, if◌then◌else◌}
use alexos.Task.{TaskInner, new_inner, running, blocked}
use alexos.Task.Exit.{Kernel, exit_notify, exit_current}
use alexos.Task.Process.{up}
use alexos.Syscall.{sleeps, waitpid_round}
use alexos.Task.Exit.Reaped.{Exited, child_of, exit_current-Exited}

abbrev parent : TaskInner
parent = record new_inner { state = blocked; children = 4 ∷ 2 ∷ [] }

abbrev child : TaskInner
child = record new_inner { state = running; parent = some 1 }

abbrev kernel : Kernel ℕ ℕ
kernel = record {
  sched = record {
    tasks = update (update (λ _. new_inner) 1 parent) 2 child;
    queue = record { levels = λ _. []; spawned = 3 };
    current = some 2;
    previous = none;
  };
  spaces = λ t. if t == 2 then some 7 else none;
  child_exit = λ t. if t == 1 then 1 ∷ [] else [];
  is_alive = λ _. true;
  satp = 7;
  supply = 0;
}

exit_current-Exited_example :
    Exited 2 1 42 (4 ∷ []) [] (exit_current 9 (λ w s. w + s) kernel 42)
    × (waitpid_round
          (up 2)
          (map (child_of (exit_notify 9 (λ w s. w + s) kernel 2 42).sched.tasks) (4 ∷ 2 ∷ []))
        ≡ sleeps)
exit_current-Exited_example =
    exit_current-Exited 9 (λ w s. w + s) kernel 2 1 42 [] [] (4 ∷ []) [] refl
      (unfold new_inner in refl) (unfold new_inner in refl) refl (unfold new_inner in refl) refl
