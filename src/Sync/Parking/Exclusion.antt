-- ===== src/Sync/Parking/Exclusion.antt =====
-- kernel/src/sync/wait.rs: at most one task holds the parking mutex.
use alexos.Base.{ℕ, Bool, true, false, ◌≡◌, arith}
use alexos.Sync.Parking.{
  Place, holding, Machine, Move, lock, take, fail, test_free, test_held, park, sleep, stay, leave,
  try_lock, unlock, wake_none, wake_one, wake, note, by, Reach, here, later, start,
}

abbrev pub holds : Place → Bool
holds holding = true
holds _ = false

-- For two tasks:
pub record InvAt (m : Machine) (i j : ℕ) : Type 0 where
  pub one_holder : holds (m.place i) ≡ true → holds (m.place j) ≡ true → i ≡ j
  pub word : holds (m.place i) ≡ true → m.locked ≡ true

abbrev pub Inv : Machine → Type 0
Inv m = (i j : ℕ) → InvAt m i j

Move-Inv : {m : Machine} {t : ℕ} {n : Machine} → Move m t n → Inv m → Inv n
Move-Inv {t = t} (lock e) v i j = ground (arith, v i j, v t j, v i t)
Move-Inv {t = t} (take e f) v i j = ground (arith, v i j, v t j, v i t, v j i)
Move-Inv {t = t} (fail e f) v i j = ground (arith, v i j, v t j, v i t)
Move-Inv {t = t} (test_free e f) v i j = ground (arith, v i j, v t j, v i t)
Move-Inv {t = t} (test_held e f) v i j = ground (arith, v i j, v t j, v i t)
Move-Inv {t = t} (park e) v i j = ground (arith, v i j, v t j, v i t)
Move-Inv {t = t} (sleep e f) v i j = ground (arith, v i j, v t j, v i t)
Move-Inv {t = t} (stay e f) v i j = ground (arith, v i j, v t j, v i t)
Move-Inv {t = t} (leave e) v i j = ground (arith, v i j, v t j, v i t)
Move-Inv {t = t} (try_lock e f) v i j = ground (arith, v i j, v t j, v i t, v j i)
Move-Inv {t = t} (unlock e) v i j = ground (arith, v i j, v t j, v i t)
Move-Inv {t = t} (wake_none e f) v i j = ground (arith, v i j, v t j, v i t)
Move-Inv {t = t} (wake_one e f) v i j = ground (arith, v i j, v t j, v i t)
Move-Inv {t = t} (wake {u} e f) v i j = ground (arith, v i j, v t j, v i t, v u j, v i u)
Move-Inv {t = t} (note e f) v i j = ground (arith, v i j, v t j, v i t)

reached-Inv : {m : Machine} → Reach start m → Inv m
reached-Inv here i j = record { one_holder = λ h. cc; word = λ h. cc }
reached-Inv (later r (by t mv)) i j = Move-Inv mv (reached-Inv r) i j

-- However the tasks are interleaved from a free mutex, two tasks that hold it are the same one, and
-- the word of the mutex says that it is held.
pub one_holder :
    {m : Machine}
    → Reach start m
    → (i j : ℕ) → holds (m.place i) ≡ true
    → holds (m.place j) ≡ true
    → (i ≡ j) × (m.locked ≡ true)
one_holder r i j hi hj = let v = reached-Inv r i j in (v.one_holder hi hj, v.word hi)
