-- ===== src/Task/Process.antt =====
-- kernel/src/task/process.rs: the program break, the arguments on the user stack, and what `exec` and
-- `fork` put into a task. The address space is a state `W`; its operations are parameters, which
-- kernel/src/mm/space.rs provides; a panic of theirs is not modelled here.
pub mod Break
pub mod Args
pub mod Image
mod Tests
use alexos.Base.{
  ℕ, zero, suc, ◌+◌, ◌-◌, ◌*◌, ◌/◌, ◌%◌, max, Bool, true, false, not, ◌&&◌, ◌||◌, Option, none,
  some, List, [], ◌∷◌, ◌++◌, ltb, leb, if◌then◌else◌, length,
}
use alexos.Base.Words.{Run, ok, panic, ◌>>=◌, sub_word, word_mod, next_multiple_of}
use alexos.Mm.Addr.{page_size, user_max_addr}
use alexos.Task.{TaskInner, new_inner}

abbrev pub user_stack_top : ℕ
user_stack_top = 0x3f_ffff_f000

abbrev pub user_stack_size : ℕ
user_stack_size = 256 * 1024

abbrev pub user_heap_base : ℕ
user_heap_base = 0x1000_0000

-- An `isize`; `down n` is -(n + 1).
pub data Isize : Type 0 where
  up : ℕ → Isize
  down : ℕ → Isize

-- `checked_add_signed`
unfoldable pub checked_add_signed : ℕ → Isize → Option ℕ
checked_add_signed a (up n) = if ltb (a + n) word_mod then some (a + n) else none
checked_add_signed a (down n) = if ltb n a then some (a - suc n) else none

-- A task and its address space.
pub record Process (W : Type 0) : Type 0 where
  pub inner : TaskInner
  pub space : W

module _ {W : Type 0} (push : W → ℕ → ℕ → Bool × W) where
  -- The break moves to `new`, where the heap is extended if it has to be. `push w from to` maps a
  -- framed, writable user region, and says whether it could.
  unfoldable pub move_brk : Process W → ℕ → Option ℕ × Process W
  move_brk p new =
      let top = next_multiple_of new page_size in
      let (mapped, space) = push p.space p.inner.heap_top top in
      if ltb new user_heap_base || leb user_max_addr new
      then (none, p)
      else if leb new p.inner.heap_top
      then (some p.inner.brk, record p { inner = record (p.inner) { brk = new } })
      else if mapped
      then (
        some p.inner.brk,
        record { inner = record (p.inner) { brk = new; heap_top = top }; space = space },
      )
      else (none, record p { space = space })

  -- `adjust_brk`
  unfoldable pub adjust_brk : Process W → Isize → Option ℕ × Process W
  unfolding move_brk checked_add_signed
  adjust_brk p (up zero) = (some p.inner.brk, p)
  adjust_brk p (up (suc n)) = elim (checked_add_signed p.inner.brk (up (suc n))) [
    | none ↦ (none, p)
    | some new ↦ move_brk p new
  ]
  adjust_brk p (down n) = elim (checked_add_signed p.inner.brk (down n)) [
    | none ↦ (none, p)
    | some new ↦ move_brk p new
  ]

-- The break fields of a process whose image ends at `loaded`, in `new_user` and in `exec_current`.
unfoldable pub image_brk : ℕ → TaskInner → TaskInner
image_brk loaded inner = record inner {
  brk = max loaded user_heap_base;
  heap_top = max loaded user_heap_base;
}

-- What `fork_from` puts into the child: the break is the parent's, the rest is new.
unfoldable pub fork_inner : ℕ → TaskInner → TaskInner
unfolding new_inner
fork_inner parent inner = record new_inner {
  brk = inner.brk;
  heap_top = inner.heap_top;
  parent = some parent;
}

-- The result of `push_args`: the stack pointer, `argc` and `argv`.
pub record Pushed : Type 0 where
  pub sp : ℕ
  pub argc : ℕ
  pub argv : ℕ

-- The place of each argument's copy, first to last, and the stack pointer below the last.
pub record Placed : Type 0 where
  pub sp : ℕ
  pub pointers : List ℕ

-- `sp -= len; sp &= !0x7` for each argument, where `len` counts the zero byte.
unfoldable pub place_args : ℕ → List (List ℕ) → Run Placed
place_args sp [] = ok (record { sp = sp; pointers = [] })
place_args sp (a ∷ more) = do
  low ← sub_word sp (length a + 1)
  let at = low / 8 * 8
  rest ← place_args at more
  ok (record { sp = rest.sp; pointers = at ∷ rest.pointers })

-- The 8 bytes of a word, lowest first.
unfoldable pub to_le_bytes : ℕ → ℕ → List ℕ
to_le_bytes zero n = []
to_le_bytes (suc k) n = n % 256 ∷ to_le_bytes k (n / 256)

module _ {W : Type 0} (store : W → ℕ → List ℕ → Option W) where
  -- The copies of the arguments and their zero bytes.
  unfoldable pub store_args : W → List (List ℕ) → List ℕ → Option W
  store_args w [] ps = some w
  store_args w (a ∷ more) [] = some w
  store_args w (a ∷ more) (p ∷ ps) = elim (store w p a) [
    | none ↦ none
    | some w₁ ↦ elim (store w₁ (p + length a) (0 ∷ [])) [
      | none ↦ none
      | some w₂ ↦ store_args w₂ more ps
    ]
  ]

  -- The array of pointers, with the null word after the last.
  unfoldable pub store_pointers : W → ℕ → List ℕ → Option W
  unfolding to_le_bytes
  store_pointers w at [] = store w at (to_le_bytes 8 0)
  store_pointers w at (p ∷ ps) = elim (store w at (to_le_bytes 8 p)) [
    | none ↦ none
    | some w' ↦ store_pointers w' (at + 8) ps
  ]

  -- `push_args`: the outer `Run` is a panic of the subtraction, the option a failed copy.
  unfoldable pub push_args : W → ℕ → List (List ℕ) → Run (Option (Pushed × W))
  unfolding place_args store_args store_pointers
  push_args w sp args = do
    placed ← place_args sp args
    low ← sub_word placed.sp ((length placed.pointers + 1) * 8)
    let argv = low / 16 * 16
    ok (elim (store_args w args placed.pointers) [
      | none ↦ none
      | some w₁ ↦ elim (store_pointers w₁ argv placed.pointers) [
        | none ↦ none
        | some w₂ ↦ some (record { sp = argv; argc = length placed.pointers; argv = argv }, w₂)
      ]
    ])
