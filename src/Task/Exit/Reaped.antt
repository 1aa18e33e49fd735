-- ===== src/Task/Exit/Reaped.antt =====
-- kernel/src/task/scheduler.rs and kernel/src/syscall/mod.rs: an exit and the parent's `waitpid`.
use mathlib.Core.Path.{subst}
use alexos.Base.{
  ℕ, ◌≡◌, ◌≢◌, refl, sym, ap, ◌∙◌, true, none, some, List, [], ◌∷◌, ◌++◌, map, update, ◌==◌,
  Bool-cases, Option-cases, inl, inr, arith,
}
use alexos.Base.Words.{Run, ok, panic}
use alexos.Task.{ready, running, blocked, zombie, TaskInner}
use alexos.Task.Scheduler.{Scheduler, wake, switch_to_idle}
use alexos.Task.Process.{up}
use alexos.Sync.Wait.{wake_each, wake_all}
use alexos.Syscall.{Child, reaped, sleeps, waitpid_round, find_zombie, any_child, matches}
use alexos.Task.Exit.{
  Kernel, set_exit_code, on_exit, leave, release_space, exit_notify, exit_current,
}

-- A wakeup of another task, or of one that does not sleep, leaves the state and the code as they are.
wake-other : (s : Scheduler) (u x : ℕ) → u ≢ x → (wake s u).tasks x ≡ s.tasks x
unfolding wake
wake-other s u x ne = ground arith

wake-awake :
    (s : Scheduler) (u x : ℕ)
    → (s.tasks x).state ≡ running
    → (((wake s u).tasks x).state ≡ running)
      × (((wake s u).tasks x).exit_code ≡ (s.tasks x).exit_code)
unfolding wake
wake-awake s u x r = ground arith

wake_ready :
    (s : Scheduler) (u x : ℕ) → (s.tasks x).state ≡ ready → ((wake s u).tasks x).state ≡ ready
unfolding wake
wake_ready s u x r = ground arith

wake_self :
    (s : Scheduler) (x : ℕ) → (s.tasks x).state ≡ blocked → ((wake s x).tasks x).state ≡ ready
unfolding wake
wake_self s x r = ground arith

wake-current : (s : Scheduler) (u : ℕ) → (wake s u).current ≡ s.current
unfolding wake
wake-current s u = ground arith

wake_each-current : (ts : List ℕ) (s : Scheduler) → (wake_each ts s).current ≡ s.current
unfolding wake_each
wake_each-current [] s = refl
wake_each-current (u ∷ ts) s = wake_each-current ts (wake s u) ∙ wake-current s u

wake_each-awake :
    (ts : List ℕ) (s : Scheduler) (x : ℕ)
    → (s.tasks x).state ≡ running
    → (((wake_each ts s).tasks x).state ≡ running)
      × (((wake_each ts s).tasks x).exit_code ≡ (s.tasks x).exit_code)
unfolding wake_each
wake_each-awake [] s x r = (r, refl)
wake_each-awake (u ∷ ts) s x r =
    let one = wake-awake s u x r in
    let rest = wake_each-awake ts (wake s u) x one.0 in (rest.0, rest.1 ∙ one.1)

wake_each_ready :
    (ts : List ℕ) (s : Scheduler) (x : ℕ)
    → (s.tasks x).state ≡ ready
    → ((wake_each ts s).tasks x).state ≡ ready
unfolding wake_each
wake_each_ready [] s x r = r
wake_each_ready (u ∷ ts) s x r = wake_each_ready ts (wake s u) x (wake_ready s u x r)

-- A sleeping task on the list is ready afterwards.
wake_each-asleep :
    (before after : List ℕ) (s : Scheduler) (x : ℕ)
    → (s.tasks x).state ≡ blocked
    → ((wake_each (before ++ x ∷ after) s).tasks x).state ≡ ready
unfolding wake_each
wake_each-asleep [] after s x r = wake_each_ready after (wake s x) x (wake_self s x r)
wake_each-asleep (u ∷ before) after s x r = elim (Bool-cases (u == x)) [
  | inl e ↦
      let same : u ≡ x = ground arith in
      wake_each_ready (before ++ x ∷ after) (wake s u) x (rw same (wake_self s x r))
  | inr e ↦
      let ne : u ≢ x = ground arith in
      wake_each-asleep before after (wake s u) x (ap (λ i. i.state) (wake-other s u x ne) ∙ r)
]

-- A task as `waitpid` of its parent sees it.
abbrev pub child_of : (ℕ → TaskInner) → ℕ → Child
child_of tasks c = record { pid = c; state = (tasks c).state; exit_code = (tasks c).exit_code }

find_zombie-child :
    (tasks : ℕ → TaskInner) (t : ℕ) (older younger : List ℕ)
    → (tasks t).state ≡ zombie
    → (others : List Child) × (find_zombie (up t) (map (child_of tasks) (older ++ t ∷ younger))
        ≡ some (child_of tasks t, others))
unfolding find_zombie matches
find_zombie-child tasks t [] younger z =
    let self : (t == t) ≡ true = ground arith in (map (child_of tasks) younger, rw (self, z) refl)
find_zombie-child tasks t (c ∷ older) younger z = elim (Bool-cases (c == t)) [
  | inl e ↦
      let same : c ≡ t = ground arith in
      let self : (t == t) ≡ true = ground arith in
      (map (child_of tasks) (older ++ t ∷ younger), rw (same, self, z) refl)
  | inr e ↦
      let ih = find_zombie-child tasks t older younger z in
      (child_of tasks c ∷ ih.0, rw (e, ih.1) refl)
]

waitpid_round-child :
    (tasks : ℕ → TaskInner) (t : ℕ) (older younger : List ℕ)
    → (tasks t).state ≡ zombie
    → (others : List Child) × (waitpid_round (up t) (map (child_of tasks) (older ++ t ∷ younger))
        ≡ reaped (child_of tasks t) others)
unfolding waitpid_round
waitpid_round-child tasks t older younger z =
    let found = find_zombie-child tasks t older younger z in
    (found.0, rw (waitpid_round, found.1) refl)

find_zombie-alive :
    (tasks : ℕ → TaskInner) (t : ℕ) (xs : List ℕ)
    → (tasks t).state ≡ running
    → find_zombie (up t) (map (child_of tasks) xs) ≡ none
unfolding find_zombie matches
find_zombie-alive tasks t [] r = refl
find_zombie-alive tasks t (c ∷ xs) r = elim (Bool-cases (c == t)) [
  | inl e ↦
      let same : c ≡ t = ground arith in
      let self : (t == t) ≡ true = ground arith in
      rw (same, self, r, find_zombie-alive tasks t xs r) refl
  | inr e ↦ rw (e, find_zombie-alive tasks t xs r) refl
]

any_child-child :
    (tasks : ℕ → TaskInner) (t : ℕ) (older younger : List ℕ)
    → any_child (up t) (map (child_of tasks) (older ++ t ∷ younger)) ≡ true
unfolding any_child matches
any_child-child tasks t [] younger = ground arith
any_child-child tasks t (c ∷ older) younger = ground (arith, any_child-child tasks t older younger)

waitpid_round-alive :
    (tasks : ℕ → TaskInner) (t : ℕ) (older younger : List ℕ)
    → (tasks t).state ≡ running
    → waitpid_round (up t) (map (child_of tasks) (older ++ t ∷ younger)) ≡ sleeps
unfolding waitpid_round
waitpid_round-alive tasks t older younger r =
    rw
      (
        waitpid_round,
        find_zombie-alive tasks t (older ++ t ∷ younger) r,
        any_child-child tasks t older younger,
      )
      refl

module _ {W S : Type 0} where
  -- What an exit of `t` with `code` leaves, for its parent `p` and the children of `p`.
  abbrev pub Exited : ℕ → ℕ → ℕ → List ℕ → List ℕ → Run (Kernel W S) → Type 0
  Exited t p code older younger panic = ⊥
  Exited t p code older younger (ok k) =
      (others : List Child) × ((k.sched.tasks p).state ≡ ready)
      × (k.spaces t ≡ none)
      × (k.sched.current ≡ none)
      × (waitpid_round (up t) (map (child_of k.sched.tasks) (older ++ t ∷ younger))
          ≡ reaped (record { pid = t; state = zombie; exit_code = code }) others)

module _ {W S : Type 0} (kernel_token : ℕ) (drop : W → S → S) where
  -- `release_space` touches no task and no queue.
  release_space-lem :
      (k : Kernel W S) (t : ℕ)
      → let k' = release_space kernel_token drop k t in
        (k'.sched ≡ k.sched)
        × (k'.child_exit ≡ k.child_exit)
        × (k'.is_alive ≡ k.is_alive)
        × (k'.spaces t ≡ none)
  unfolding release_space
  release_space-lem k t = elim (Option-cases (k.spaces t)) [
    | inl e ↦ rw (release_space, e) (refl, refl, refl, e)
    | inr (w, e) ↦ rw (release_space, e) (refl, refl, refl, ground arith)
  ]

  on_exit-lem :
      (k : Kernel W S) (t p : ℕ)
      → (k.sched.tasks t).parent ≡ some p
      → k.is_alive p ≡ true
      → ((on_exit k t).sched ≡ wake_each (k.child_exit p) k.sched)
        × ((on_exit k t).spaces ≡ k.spaces)
  unfolding on_exit wake_all
  on_exit-lem k t p e a = rw (on_exit, e, a) (refl, refl)

  gone : Kernel W S → ℕ → Kernel W S
  gone k t = record k {
    sched = record (k.sched) {
      tasks = update k.sched.tasks t (record (k.sched.tasks t) { state = zombie });
      current = none;
      previous = some t;
    };
  }

  leave-gone :
      (k : Kernel W S) (t : ℕ)
      → k.sched.current ≡ some t
      → leave kernel_token drop k ≡ ok (gone k t)
  unfolding leave switch_to_idle gone
  leave-gone k t c = rw (leave, switch_to_idle, c) refl

  exit_current-leave :
      (k : Kernel W S) (t code : ℕ)
      → k.sched.current ≡ some t
      → exit_current kernel_token drop k code
        ≡ leave kernel_token drop (exit_notify kernel_token drop k t code)
  unfolding exit_current
  exit_current-leave k t code c =
      ap
        (λ o. elim o [
          | none ↦ leave kernel_token drop k
          | some u ↦ leave kernel_token drop (exit_notify kernel_token drop k u code)
        ])
        c

  gone-Exited :
      (k : Kernel W S) (t p code : ℕ) (older younger : List ℕ)
      → p ≢ t
      → (k.sched.tasks p).state ≡ ready
      → k.spaces t ≡ none
      → (k.sched.tasks t).exit_code ≡ code
      → Exited t p code older younger (ok (gone k t))
  unfolding gone
  gone-Exited k t p code older younger ne woken free has_code =
      let tasks = update k.sched.tasks t (record (k.sched.tasks t) { state = zombie }) in
      let dead : (tasks t).state ≡ zombie = ground arith in
      let same : (tasks t).exit_code ≡ code = ground arith in
      let round = waitpid_round-child tasks t older younger dead in
      (
        round.0,
        ground arith,
        free,
        refl,
        round.1 ∙ ap (λ c. reaped c round.0) (rw (dead, same) refl),
      )

  -- The state in which the task leaves.
  dying-lem :
      (k : Kernel W S) (t p code : ℕ)
      → (k.sched.tasks t).parent ≡ some p
      → k.is_alive p ≡ true
      → let k₁ = set_exit_code kernel_token drop k t code in
        let k₃ = exit_notify kernel_token drop k t code in
        (k₃.sched ≡ wake_each (k.child_exit p) k₁.sched) × (k₃.spaces t ≡ none)
  unfolding exit_notify
  dying-lem k t p code parent alive =
      let k₁ = set_exit_code kernel_token drop k t code in
      let k₂ = release_space kernel_token drop k₁ t in
      let freed = release_space-lem k₁ t in
      let has_parent : (k₁.sched.tasks t).parent ≡ some p = ground arith in
      let woken =
        on_exit-lem k₂ t p (ap (λ (s : Scheduler). (s.tasks t).parent) freed.0 ∙ has_parent)
          (ap (λ f. f p) freed.2 ∙ alive) in
      (
        woken.0
            ∙ ap (λ f. wake_each (f p) k₂.sched) freed.1
            ∙ ap (wake_each (k.child_exit p)) freed.0,
        ap (λ f. f t) woken.1 ∙ freed.3,
      )

  -- A running task `t` whose parent `p` sleeps on its queue of exits calls `exit_current`. When nothing
  -- else runs between the wakeup of the parent and the switch, `t` leaves with its space given up, the
  -- parent is ready, and a round of `waitpid` for `t` then reaps it with its code, wherever it stands
  -- among the children. A round that the parent runs in between, behind the wakeup and before the
  -- switch, does not reap `t` but sleeps again.
  pub exit_current-Exited :
      (k : Kernel W S) (t p code : ℕ) (before after older younger : List ℕ)
      → k.sched.current ≡ some t
      → (k.sched.tasks t).state ≡ running
      → (k.sched.tasks t).parent ≡ some p
      → k.is_alive p ≡ true
      → (k.sched.tasks p).state ≡ blocked
      → k.child_exit p ≡ before ++ p ∷ after
      → Exited t p code older younger (exit_current kernel_token drop k code)
        × (waitpid_round (up t) (
              map
                (child_of (exit_notify kernel_token drop k t code).sched.tasks)
                (older ++ t ∷ younger))
            ≡ sleeps)
  exit_current-Exited k t p code before after older younger current runs parent alive asleep queue =
      let ne : p ≢ t = λ e.
        let both : blocked ≡ running = sym asleep ∙ ap (λ x. (k.sched.tasks x).state) e ∙ runs in
        cc in
      let k₁ = set_exit_code kernel_token drop k t code in
      let k₃ = exit_notify kernel_token drop k t code in
      let dying = dying-lem k t p code parent alive in
      let sched : k₃.sched ≡ wake_each (before ++ p ∷ after) k₁.sched =
        dying.0 ∙ ap (λ ts. wake_each ts k₁.sched) queue in
      let still : (k₁.sched.tasks p).state ≡ blocked = ground arith in
      let goes : (k₁.sched.tasks t).state ≡ running = ground arith in
      let coded : (k₁.sched.tasks t).exit_code ≡ code = ground arith in
      let own = wake_each-awake (before ++ p ∷ after) k₁.sched t goes in
      let left : exit_current kernel_token drop k code ≡ ok (gone k₃ t) =
        exit_current-leave k t code current
        ∙ leave-gone k₃ t (
            ap (λ (s : Scheduler). s.current) sched
            ∙ wake_each-current (before ++ p ∷ after) k₁.sched
            ∙ current) in
      let alive_yet : (k₃.sched.tasks t).state ≡ running =
        ap (λ (s : Scheduler). (s.tasks t).state) sched ∙ own.0 in
      let reaps = subst (Exited t p code older younger) (sym left) (
        gone-Exited k₃ t p code older younger ne
          (ap (λ (s : Scheduler). (s.tasks p).state) sched
            ∙ wake_each-asleep before after k₁.sched p still)
          dying.1 (ap (λ (s : Scheduler). (s.tasks t).exit_code) sched ∙ own.1 ∙ coded)) in
      (reaps, waitpid_round-alive k₃.sched.tasks t older younger alive_yet)
