-- ===== src/Sync/Parking/Lost.antt =====
-- kernel/src/sync/wait.rs: `wait_until` tests its condition before the task stands in the queue.
use alexos.Base.{ℕ, ◌≢◌, true, false, ◌≡◌, refl, sym, ap, ◌∙◌, [], ◌∷◌, ◌==◌, arith}
use alexos.Sync.Parking.{
  outside, locking, testing, parking, queued, asleep, holding, released, Machine, at, is_asleep,
  Move, lock, take, fail, test_free, test_held, park, sleep, stay, leave, try_lock, unlock,
  wake_none, wake_one, wake, note, by, Reach, here, later, start,
}

-- The mutex is free, task `a` sleeps, and every other task is outside.
abbrev pub Lost : Machine → ℕ → Type 0
Lost m a = (m.locked ≡ false) × (m.place a ≡ asleep) × ((c : ℕ) → c ≢ a → m.place c ≡ outside)

-- A task that sleeps takes no step.
Move-awake : {m : Machine} {t : ℕ} {n : Machine} → Move m t n → is_asleep (m.place t) ≡ false
Move-awake (lock e) = ap is_asleep e
Move-awake (take e f) = ap is_asleep e
Move-awake (fail e f) = ap is_asleep e
Move-awake (test_free e f) = ap is_asleep e
Move-awake (test_held e f) = ap is_asleep e
Move-awake (park e) = ap is_asleep e
Move-awake (sleep e f) = ap is_asleep e
Move-awake (stay e f) = ap is_asleep e
Move-awake (leave e) = ap is_asleep e
Move-awake (try_lock e f) = ap is_asleep e
Move-awake (unlock e) = ap is_asleep e
Move-awake (wake_none e f) = ap is_asleep e
Move-awake (wake_one e f) = ap is_asleep e
Move-awake (wake e f) = ap is_asleep e
Move-awake (note e f) = ap is_asleep e

-- Only a task that comes to the mutex anew takes a step from there.
Lost-outside :
    (m : Machine) (a : ℕ)
    → Lost m a
    → (t : ℕ) (n : Machine) → Move m t n
    → (t ≢ a) × (m.place t ≡ outside)
Lost-outside m a (free, down, others) t n mv =
    let other : t ≢ a = λ e.
      let bad : true ≡ false = sym (ap is_asleep (ap m.place e ∙ down)) ∙ Move-awake mv in cc in
    (other, others t other)

module _ (a b : ℕ) (ne : a ≢ b) where
  -- The task `b` holds the mutex; `a` has seen that, and is about to enter the queue.
  abbrev seen : Machine
  seen = at (at (at (record (at start b holding) { locked = true }) a locking) a testing) a parking

  -- The task `b` has left, and nobody was in the queue.
  abbrev gone : Machine
  gone = at (record (at seen b released) { locked = false }) b outside

  -- The task `a` has gone to sleep.
  abbrev slept : Machine
  slept = at (record (at gone a queued) { waiters = a ∷ [] }) a asleep

  seen_reached : Reach start seen
  seen_reached =
      let own : (b == b) ≡ true = ground arith in
      let same : (a == a) ≡ true = ground arith in
      let apart : (a == b) ≡ false = ground (arith, ne) in
      later
        (later (later (later here (by b (try_lock refl refl))) (by a (lock (rw apart refl))))
          (by a (fail (rw same refl) refl)))
        (by a (test_held (rw same refl) refl))

  gone_reached : Reach start gone
  gone_reached =
      let own : (b == b) ≡ true = ground arith in
      let apart : (b == a) ≡ false = ground (arith, ne) in
      later (later seen_reached (by b (unlock (rw (apart, own) refl))))
        (by b (wake_none (rw own refl) refl))

  slept_reached : Reach start slept
  slept_reached =
      let same : (a == a) ≡ true = ground arith in
      let apart : (a == b) ≡ false = ground (arith, ne) in
      later (later gone_reached (by a (park (rw (apart, same) refl))))
        (by a (sleep (rw same refl) refl))

  -- For any two tasks a state can be reached in which the mutex is free, `a` sleeps in `lock`, and
  -- every other task is outside; no step is possible there but that of another task that comes to the
  -- mutex.
  pub missed_wakeup :
      (m : Machine) × Reach start m
      × Lost m a
      × ((t : ℕ) (n : Machine) → Move m t n → (t ≢ a) × (m.place t ≡ outside))
  missed_wakeup =
      let same : (a == a) ≡ true = ground arith in
      let lost : Lost slept a = (refl, rw same refl, λ c other. ground (arith, other)) in
      (slept, slept_reached, lost, Lost-outside slept a lost)
