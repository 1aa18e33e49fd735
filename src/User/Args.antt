-- ===== src/User/Args.antt =====
-- user/src/lib.rs: `Args`, the argument vector of a program. Memory is a function from an address to
-- the byte; a string that has no zero within `fuel` bytes gives `none`.
pub mod Memory
pub mod Pushed
pub mod Read
mod Tests
use alexos.Base.{ℕ, ◌+◌, ◌*◌, Bool, Option, none, some, List, leb, ◌==◌, if◌then◌else◌}
use alexos.Mm.Space.{read_bytes}
use alexos.Syscall.Exec.{from_le}
use alexos.User.Shell.{cstr_at}

pub record Args : Type 0 where
  pub argc : ℕ
  pub argv : ℕ
  pub index : ℕ

unfoldable pub new_args : ℕ → ℕ → Args
new_args argc argv = record { argc = argc; argv = argv; index = 0 }

unfoldable pub is_empty : Args → Bool
is_empty a = a.argc == 0

-- The pointer at a place of the vector.
unfoldable pub pointer_at : (ℕ → ℕ) → Args → ℕ → ℕ
unfolding read_bytes from_le
pointer_at mem a n = from_le (read_bytes mem (a.argv + n * 8) 8)

-- `get`: the argument at `n`, or `some none` out of range.
unfoldable pub get : ℕ → (ℕ → ℕ) → Args → ℕ → Option (Option (List ℕ))
unfolding pointer_at cstr_at
get fuel mem a n =
    if leb a.argc n then some none else elim (cstr_at fuel mem (pointer_at mem a n)) [
      | none ↦ none
      | some bytes ↦ some (some bytes)
    ]

-- `next` of the iterator.
unfoldable pub next_arg : ℕ → (ℕ → ℕ) → Args → Option (Option (List ℕ) × Args)
unfolding get
next_arg fuel mem a = elim (get fuel mem a a.index) [
  | none ↦ none
  | some none ↦ some (none, a)
  | some (some bytes) ↦ some (some bytes, record a { index = a.index + 1 })
]
