-- ===== src/Sync/Spin.antt =====
-- kernel/src/sync/spin.rs: the spin lock, taken and released by the harts of the machine. A step is
-- one access to the lock's word or to a hart's interrupt flag, in any order of the harts.
pub mod Exclusion
mod Tests
use alexos.Base.{ℕ, Bool, true, false, ◌≡◌, ◌<◌, update, if◌then◌else◌}

-- Where a hart stands in `lock`, `try_lock` or the drop of the guard. `restore` is what the guard
-- remembers: whether interrupts were enabled.
pub data Place : Type 0 where
  outside : Place
  spinning : (restore : Bool) → Place  -- in `lock`, interrupts masked
  trying : (restore : Bool) → Place  -- in `try_lock`, interrupts masked
  refused : (restore : Bool) → Place  -- in `try_lock`, the exchange has failed
  holding : (restore : Bool) → Place
  released : (restore : Bool) → Place  -- the guard has stored `false`

-- `intr` is the interrupt flag of a hart.
pub record Machine : Type 0 where
  pub locked : Bool
  pub place : ℕ → Place
  pub intr : ℕ → Bool

abbrev pub at : Machine → ℕ → Place → Machine
at m h p = record m { place = update m.place h p }

abbrev pub with_intr : Machine → ℕ → Bool → Machine
with_intr m h b = record m { intr = update m.intr h b }

-- The steps of hart `h`.
pub data Move (m : Machine) (h : ℕ) : Machine → Type 0 where
  lock : m.place h ≡ outside → Move m h (with_intr (at m h (spinning (m.intr h))) h false)
  try_lock : m.place h ≡ outside → Move m h (with_intr (at m h (trying (m.intr h))) h false)
  -- `compare_exchange_weak` may fail on a free lock, and the relaxed load changes nothing
  spin : {r : Bool} → m.place h ≡ spinning r → Move m h m
  take :
      {r : Bool}
      → m.place h ≡ spinning r
      → m.locked ≡ false
      → Move m h (record (at m h (holding r)) { locked = true })
  try_take :
      {r : Bool}
      → m.place h ≡ trying r
      → m.locked ≡ false
      → Move m h (record (at m h (holding r)) { locked = true })
  try_fail : {r : Bool} → m.place h ≡ trying r → m.locked ≡ true → Move m h (at m h (refused r))
  give_up :
      {r : Bool}
      → m.place h ≡ refused r
      → Move m h (with_intr (at m h outside) h (if r then true else m.intr h))
  unlock :
      {r : Bool}
      → m.place h ≡ holding r
      → Move m h (record (at m h (released r)) { locked = false })
  restore :
      {r : Bool}
      → m.place h ≡ released r
      → Move m h (with_intr (at m h outside) h (if r then true else m.intr h))

pub data Step (m : Machine) (n : Machine) : Type 0 where
  by : (h : ℕ) → Move m h n → Step m n

pub data Reach (m : Machine) : Machine → Type 0 where
  here : Reach m m
  later : {n o : Machine} → Reach m n → Step n o → Reach m o

abbrev pub start : (ℕ → Bool) → Machine
start flags = record { locked = false; place = λ _. outside; intr = flags }
