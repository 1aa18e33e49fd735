-- ===== src/Trap/Timer.antt =====
-- kernel/src/timer.rs: the deadline after a tick.
use alexos.Base.{ℕ, ◌+◌, ◌≤◌, ◌<◌, ◌≡◌, ◌⊎◌, arith}
use alexos.Trap.{interval, next_deadline}

-- The next deadline lies ahead by at most one interval of a handler that is not early, and one
-- interval after the last deadline unless that is already past.
pub next_deadline_lem :
    (last now : ℕ)
    → last ≤ now
    → (now < next_deadline last now)
      × (next_deadline last now ≤ now + interval)
      × ((next_deadline last now ≡ last + interval) ⊎ (last + interval ≤ now))
unfolding next_deadline
next_deadline_lem last now h = ground arith
