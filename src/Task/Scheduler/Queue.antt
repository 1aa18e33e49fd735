-- ===== src/Task/Scheduler/Queue.antt =====
-- kernel/src/task/scheduler.rs: the run queue, by what it holds.
use alexos.Base.{
  ℕ, ◌+◌, ◌≡◌, refl, Option, none, some, List, [], ◌∷◌, ◌++◌, update, ◌==◌, if◌then◌else◌, arith,
}
use alexos.Task.Scheduler.{RunQueue, push, pop, pop_from}

-- How often a task stands in a list.
pub times : ℕ → List ℕ → ℕ
times t [] = 0
times t (x ∷ xs) = (if x == t then 1 else 0) + times t xs

times-snoc :
    (t u : ℕ) (xs : List ℕ) → times t (xs ++ u ∷ []) ≡ times t xs + (if u == t then 1 else 0)
unfolding times
times-snoc t u [] = omega arith
times-snoc t u (x ∷ xs) = omega (arith, times-snoc t u xs)

-- How often a task stands in the three queues.
unfoldable pub queued : ℕ → RunQueue → ℕ
unfolding times
queued t q = times t (q.levels 0) + times t (q.levels 1) + times t (q.levels 2)

-- `push` queues the task once more, and no other.
pub queued-push :
    (t u l : ℕ) (q : RunQueue) → queued t (push q u l) ≡ queued t q + (if u == t then 1 else 0)
unfolding queued push
queued-push t u l q =
    ground
      (arith, times-snoc t u (q.levels 0), times-snoc t u (q.levels 1), times-snoc t u (q.levels 2))

pub queued-spawned : (t n : ℕ) (q : RunQueue) → queued t (record q { spawned = n }) ≡ queued t q
unfolding queued
queued-spawned t n q = refl

-- What `pop` returns: nothing when all queues are empty, or else the head of the first queue that
-- is not.
pub data Popped (q : RunQueue) : Option (ℕ × RunQueue) → Type 0 where
  idle : (q.levels 0 ≡ []) → (q.levels 1 ≡ []) → (q.levels 2 ≡ []) → Popped q none
  top :
      (t : ℕ) (ts : List ℕ)
      → q.levels 0 ≡ t ∷ ts
      → Popped q (some (t, record q { levels = update q.levels 0 ts }))
  middle :
      (t : ℕ) (ts : List ℕ)
      → q.levels 0 ≡ []
      → q.levels 1 ≡ t ∷ ts
      → Popped q (some (t, record q { levels = update q.levels 1 ts }))
  bottom :
      (t : ℕ) (ts : List ℕ)
      → q.levels 0 ≡ []
      → q.levels 1 ≡ []
      → q.levels 2 ≡ t ∷ ts
      → Popped q (some (t, record q { levels = update q.levels 2 ts }))

pop-levels :
    (q : RunQueue) (a b c : List ℕ)
    → q.levels 0 ≡ a
    → q.levels 1 ≡ b
    → q.levels 2 ≡ c
    → Popped q (pop q)
unfolding pop
pop-levels q (t ∷ ts) b c ea eb ec = rw (ea, pop_from) (top t ts ea)
pop-levels q [] (t ∷ ts) c ea eb ec = rw (ea, pop_from, eb) (middle t ts ea eb)
pop-levels q [] [] (t ∷ ts) ea eb ec = rw (ea, pop_from, eb, ec) (bottom t ts ea eb ec)
pop-levels q [] [] [] ea eb ec = rw (ea, pop_from, eb, ec) (idle ea eb ec)

-- `pop` serves the highest level that has a task, and within it the task queued first.
pub pop-Popped : (q : RunQueue) → Popped q (pop q)
pop-Popped q = pop-levels q (q.levels 0) (q.levels 1) (q.levels 2) refl refl refl

abbrev pub Taken : ℕ → RunQueue → Option (ℕ × RunQueue) → Type 0
Taken t q none = queued t q ≡ 0
Taken t q (some (u, q')) = queued t q ≡ queued t q' + (if u == t then 1 else 0)

Popped-Taken : (t : ℕ) (q : RunQueue) {r : Option (ℕ × RunQueue)} → Popped q r → Taken t q r
unfolding queued
Popped-Taken t q (idle a b c) = rw (a, b, c) (omega arith)
Popped-Taken t q (top u ts a) = rw a (omega arith)
Popped-Taken t q (middle u ts a b) = rw b (omega arith)
Popped-Taken t q (bottom u ts a b c) = rw c (omega arith)

-- `pop` takes one entry of the task that it returns, and none of another; it returns nothing only
-- where no task is queued.
pub pop-Taken : (t : ℕ) (q : RunQueue) → Taken t q (pop q)
pop-Taken t q = Popped-Taken t q (pop-Popped q)
