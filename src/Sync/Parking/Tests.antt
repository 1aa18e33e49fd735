-- ===== src/Sync/Parking/Tests.antt =====
-- The parking mutex between two tasks.
use alexos.Base.{ℕ, true, ◌≡◌, ◌≢◌, refl, [], ◌∷◌, arith}
use alexos.Sync.Parking.{
  Machine, Reach, Move, start, at, by, here, later, lock, fail, test_held, park, sleep, try_lock,
  outside, locking, testing, parking, queued, asleep, holding,
}
use alexos.Sync.Parking.Exclusion.{one_holder}
use alexos.Sync.Parking.Sleepers.{Expected, asleep-Expected}
use alexos.Sync.Parking.Lost.{Lost, missed_wakeup}

-- Task 0 holds the mutex.
abbrev held : Machine
held = record (at start 0 holding) { locked = true }

held_reached : Reach start held
held_reached = later here (by 0 (try_lock refl refl))

-- Task 1 sleeps.
abbrev slept : Machine
slept =
    at (record (at (at (at (at held 1 locking) 1 testing) 1 parking) 1 queued) { waiters = 1 ∷ [] })
      1 asleep

slept_reached : Reach start slept
slept_reached =
    later
      (later
        (later (later (later held_reached (by 1 (lock refl))) (by 1 (fail refl refl)))
          (by 1 (test_held refl refl)))
        (by 1 (park refl)))
      (by 1 (sleep refl refl))

one_holder_example : (◌≡◌ {A = ℕ} 0 0) × (slept.locked ≡ true)
one_holder_example = one_holder slept_reached 0 0 refl refl

asleep-Expected_example : Expected slept 1
asleep-Expected_example = asleep-Expected slept_reached 1 refl

missed_wakeup_example :
    (m : Machine) × Reach start m
    × Lost m 0
    × ((t : ℕ) (n : Machine) → Move m t n → (t ≢ 0) × (m.place t ≡ outside))
missed_wakeup_example = missed_wakeup 0 1 (ground arith)
