-- ===== src/Sync/Spin/Tests.antt =====
-- The spin lock with hart 0 inside.
use alexos.Base.{ℕ, Bool, true, ◌≡◌, refl, false}
use alexos.Sync.Spin.{
  Machine, Reach, start, by, here, later, lock, take, at, with_intr, spinning, holding,
}
use alexos.Sync.Spin.Exclusion.{mutual_exclusion}

abbrev enabled : ℕ → Bool
enabled _ = true

abbrev entered : Machine
entered = with_intr (at (start enabled) 0 (spinning true)) 0 false

abbrev held : Machine
held = record (at entered 0 (holding true)) { locked = true }

held_reached : Reach (start enabled) held
held_reached = later (later here (by 0 (lock refl))) (by 0 (take refl refl))

mutual_exclusion_example : (◌≡◌ {A = ℕ} 0 0) × (held.locked ≡ true) × (held.intr 0 ≡ false)
mutual_exclusion_example = mutual_exclusion held_reached 0 0 refl refl
