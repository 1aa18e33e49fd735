-- ===== src/Syscall/Exec.antt =====
-- kernel/src/syscall/mod.rs: `sys_exec`. `copy` and `cstr` are `copy_from_user` and `read_cstr` of the
-- caller's space, `find` the table of programs, and `exec` is `exec_current`, with what it leaves.
use alexos.Base.{
  ℕ, zero, suc, ◌+◌, ◌*◌, ◌^◌, ◌≤◌, ◌<◌, ◌≡◌, refl, Bool, true, false, Option, none, some, List, [],
  ◌∷◌, length, ltb, ◌==◌, if◌then◌else◌, Bool-cases, Option-cases, inl, inr, arith,
}
use alexos.Base.Words.{Run, ok, panic, ◌>>=◌, add_word, word_mod}
use alexos.Mm.Addr.{user_max_addr}
use alexos.Task.Process.{user_stack_top}
use alexos.Task.Process.Args.{room_for}
use alexos.Task.Process.Image.{bad_image, out_of_memory, Execed, replaced, failed}
use alexos.Task.Process.Image.Exec.{stack_for}
use alexos.Syscall.{einval, enoent, enomem, efault, Reply, value, error}

abbrev pub max_str : ℕ
max_str = 256

abbrev pub max_args : ℕ
max_args = 32

-- `usize::from_le_bytes`
unfoldable pub from_le : List ℕ → ℕ
from_le [] = 0
from_le (b ∷ bs) = b + 256 * from_le bs

-- `result` of `sys_exec`
abbrev pub exec_reply : Execed → Reply
exec_reply replaced = value 0
exec_reply (failed out_of_memory) = error enomem
exec_reply (failed (bad_image _)) = error einval

abbrev pub replied : {T : Type 0} → Run (Execed × T) → Run (Reply × T)
replied panic = panic
replied (ok (e, t)) = ok (exec_reply e, t)

module _ (copy : ℕ → ℕ → Option (List ℕ)) (cstr : ℕ → ℕ → Option (List ℕ)) where
  abbrev more_args : Option (List ℕ) → Run (Option (List (List ℕ))) → Run (Option (List (List ℕ)))
  more_args none rest = ok none
  more_args (some s) panic = panic
  more_args (some s) (ok none) = ok none
  more_args (some s) (ok (some args)) = ok (some (s ∷ args))

  -- What follows the read of a slot: a null pointer ends the arguments.
  unfoldable pub slot_args :
      Option (List ℕ) → Run (Option (List (List ℕ))) → Run (Option (List (List ℕ)))
  unfolding from_le
  slot_args none rest = ok none
  slot_args (some slot) rest =
      if from_le slot == 0 then ok (some []) else more_args (cstr (from_le slot) max_str) rest

  -- `for i in 0..MAX_ARGS`, with `left` rounds to go; `none` is the early return of `EFAULT`.
  unfoldable pub read_args : ℕ → ℕ → ℕ → Run (Option (List (List ℕ)))
  unfolding slot_args
  read_args zero argv i = ok (some [])
  read_args (suc left) argv i =
      let rest = read_args left argv (i + 1) in
      do at ← add_word argv (i * 8); slot_args (copy at 8) rest

  -- The path and the arguments.
  unfoldable pub read_strings : ℕ → ℕ → Run (Option (List ℕ × List (List ℕ)))
  unfolding read_args
  read_strings path_ptr argv_ptr = elim (cstr path_ptr max_str) [
    | none ↦ ok none
    | some path ↦ do
      args ← if argv_ptr == 0 then ok (some []) else read_args max_args argv_ptr 0
      elim args [ none ↦ ok none | some as' ↦ ok (some (path, as')) ]
  ]

  module _ {T I : Type 0} (find : List ℕ → Option I)
      (exec : T → List ℕ → I → List (List ℕ) → Run (Execed × T)) where
    -- The rest behind the table of programs.
    unfoldable pub exec_found : T → List ℕ → List (List ℕ) → Option I → Run (Reply × T)
    exec_found task path args none = ok (error enoent, task)
    exec_found task path args (some image) = replied (exec task path image args)

    unfoldable pub exec_strings : T → Option (List ℕ × List (List ℕ)) → Run (Reply × T)
    unfolding exec_found
    exec_strings task none = ok (error efault, task)
    exec_strings task (some (path, args)) = exec_found task path args (find path)

    -- `sys_exec` on a task; `owns` says whether it has a space of its own.
    unfoldable pub sys_exec : Bool → T → ℕ → ℕ → Run (Reply × T)
    unfolding read_strings exec_strings
    sys_exec false task path_ptr argv_ptr = ok (error efault, task)
    sys_exec true task path_ptr argv_ptr = do
      strings ← read_strings path_ptr argv_ptr
      exec_strings task strings

  module _ (inside : (a : ℕ) (b : List ℕ) → copy a 8 ≡ some b → a < user_max_addr)
      (short : (a : ℕ) (s : List ℕ) → cstr a max_str ≡ some s → length s ≤ max_str) where
    -- The reading comes to an end, and what it reads is small.
    abbrev Small : ℕ → Run (Option (List (List ℕ))) → Type 0
    Small left panic = ⊥
    Small left (ok none) = Unit {0}
    Small left (ok (some args)) = (length args ≤ left) × (room_for args ≤ left * 264)

    more_args-Small :
        (left : ℕ) (o : Option (List ℕ)) (rest : Run (Option (List (List ℕ))))
        → ((s : List ℕ) → o ≡ some s → length s ≤ max_str)
        → Small left rest
        → Small (suc left) (more_args o rest)
    unfolding room_for
    more_args-Small left none rest h r = tt
    more_args-Small left (some s) panic h r = r
    more_args-Small left (some s) (ok none) h r = tt
    more_args-Small left (some s) (ok (some args)) h r =
        let l = h s refl in (omega (arith, r.0), omega (arith, r.1))

    slot_args-Small :
        (left : ℕ) (o : Option (List ℕ)) (rest : Run (Option (List (List ℕ))))
        → ((b : List ℕ) → o ≡ some b → Small left rest)
        → Small (suc left) (slot_args o rest)
    unfolding slot_args room_for
    slot_args-Small left none rest h = tt
    slot_args-Small left (some slot) rest h = elim (Bool-cases (from_le slot == 0)) [
      | inl last ↦ rw last (omega arith, omega arith)
      | inr more ↦ rw more (
          more_args-Small left (cstr (from_le slot) max_str) rest (λ s e. short (from_le slot) s e)
            (h slot refl))
    ]

    read_args-slot :
        (left argv i : ℕ)
        → argv + i * 8 < 2 ^ 64
        → read_args (suc left) argv i
          ≡ slot_args (copy (argv + i * 8) 8) (read_args left argv (i + 1))
    unfolding read_args
    read_args-slot left argv i h =
        let fits : ltb (argv + i * 8) word_mod ≡ true = ground arith in rw fits refl

    read_args-Small : (left argv i : ℕ) → argv + i * 8 < 2 ^ 64 → Small left (read_args left argv i)
    read_args-Small zero argv i h = unfold read_args room_for in (omega arith, omega arith)
    read_args-Small (suc left) argv i h = rw (read_args-slot left argv i h) (
        slot_args-Small left (copy (argv + i * 8) 8) (read_args left argv (i + 1)) (λ b e.
          let below = inside (argv + i * 8) b e in read_args-Small left argv (i + 1) (omega arith)))

    -- The strings of a call, with the room for the arguments on the new stack.
    abbrev pub Fitting : Run (Option (List ℕ × List (List ℕ))) → Type 0
    Fitting panic = ⊥
    Fitting (ok none) = Unit {0}
    Fitting (ok (some (path, args))) = stack_for args ≤ user_stack_top

    with_path : List ℕ → Run (Option (List (List ℕ))) → Run (Option (List ℕ × List (List ℕ)))
    with_path path r = do args ← r; elim args [ none ↦ ok none | some as' ↦ ok (some (path, as')) ]

    with_path-Fitting :
        (path : List ℕ) (r : Run (Option (List (List ℕ))))
        → Small max_args r
        → Fitting (with_path path r)
    unfolding with_path
    with_path-Fitting path panic h = h
    with_path-Fitting path (ok none) h = tt
    with_path-Fitting path (ok (some args)) h = omega (arith, h.0, h.1)

    pub read_strings-Fitting :
        (path_ptr argv_ptr : ℕ) → argv_ptr < 2 ^ 64 → Fitting (read_strings path_ptr argv_ptr)
    unfolding read_strings
    read_strings-Fitting path_ptr argv_ptr h = elim (Option-cases (cstr path_ptr max_str)) [
      | inl lost ↦ rw (lost, read_strings) tt
      | inr (path, found) ↦
          let r = if argv_ptr == 0 then ok (some []) else read_args max_args argv_ptr 0 in
          let same : read_strings path_ptr argv_ptr ≡ with_path path r =
            unfold read_strings with_path in rw (found, read_strings) refl in
          rw same (
            with_path-Fitting path r (elim (Bool-cases (argv_ptr == 0)) [
              | inl null ↦ rw null (unfold room_for in (omega arith, omega arith))
              | inr array ↦ rw array (read_args-Small max_args argv_ptr 0 (omega arith))
            ]))
    ]
