-- ===== src/Task/Scheduler/Service.antt =====
-- kernel/src/task/scheduler.rs: the order in which the run queue serves its tasks.
use mathlib.Core.List.{append_assoc}
use alexos.Base.{
  ℕ, zero, suc, ◌≤◌, ◌≡◌, refl, ap, sym, ◌∙◌, Option, none, some, List, [], ◌∷◌, ◌++◌, length, min,
  arith,
}
use alexos.Task.Scheduler.{RunQueue, push, pop}
use alexos.Task.Scheduler.Queue.{Popped, idle, top, middle, bottom, pop-Popped}

-- The tasks of the queue, level by level, the first of each level first.
unfoldable pub contents : RunQueue → List ℕ
contents q = q.levels 0 ++ (q.levels 1 ++ q.levels 2)

-- The tasks that `n` calls of `pop` return.
unfoldable pub serve : ℕ → RunQueue → List ℕ
serve zero q = []
serve (suc n) q = elim (pop q) [ none ↦ [] | some (t, q') ↦ t ∷ serve n q' ]

-- The tasks that are served before one that is put on `level` now, and those behind it.
abbrev pub ahead : ℕ → RunQueue → List ℕ
ahead zero q = q.levels 0
ahead (suc zero) q = q.levels 0 ++ q.levels 1
ahead _ q = q.levels 0 ++ (q.levels 1 ++ q.levels 2)

abbrev pub behind : ℕ → RunQueue → List ℕ
behind zero q = q.levels 1 ++ q.levels 2
behind (suc zero) q = q.levels 2
behind _ q = []

abbrev Heads : List ℕ → Option (ℕ × RunQueue) → Type 0
Heads xs none = xs ≡ []
Heads xs (some (t, q')) = xs ≡ t ∷ contents q'

Popped-Heads : (q : RunQueue) {r : Option (ℕ × RunQueue)} → Popped q r → Heads (contents q) r
unfolding contents
Popped-Heads q (idle a b c) = rw (a, b, c) refl
Popped-Heads q (top t ts a) = rw a refl
Popped-Heads q (middle t ts a b) = rw (a, b) refl
Popped-Heads q (bottom t ts a b c) = rw (a, b, c) refl

served : ℕ → Option (ℕ × RunQueue) → List ℕ
served n r = elim r [ none ↦ [] | some (t, q') ↦ t ∷ serve n q' ]

serve-served : (n : ℕ) (q : RunQueue) → serve (suc n) q ≡ served n (pop q)
unfolding serve served
serve-served n q = refl

served-Heads :
    (n : ℕ) (xs : List ℕ) (r : Option (ℕ × RunQueue))
    → Heads xs r
    → length xs ≤ suc n
    → ((q : RunQueue) → length (contents q) ≤ n → serve n q ≡ contents q)
    → served n r ≡ xs
unfolding served
served-Heads n xs none h l on = sym h
served-Heads n xs (some (t, q)) h l on =
    let shorter : length xs ≡ suc (length (contents q)) = ap length h in
    ap (λ ys. t ∷ ys) (on q (omega (arith, shorter, l))) ∙ sym h

empty_lem : (xs : List ℕ) → length xs ≤ 0 → [] ≡ xs
empty_lem [] h = refl
empty_lem (x ∷ xs) h = absurd (omega arith)

-- As many calls of `pop` as there are tasks return them all, in order.
serve-contents : (n : ℕ) (q : RunQueue) → length (contents q) ≤ n → serve n q ≡ contents q
serve-contents zero q h = unfold serve in empty_lem (contents q) h
serve-contents (suc n) q h =
    serve-served n q
    ∙ served-Heads n (contents q) (pop q) (Popped-Heads q (pop-Popped q)) h (serve-contents n)

contents-push : (q : RunQueue) (t l : ℕ) → contents (push q t l) ≡ ahead l q ++ t ∷ behind l q
unfolding contents push
contents-push q t zero = append_assoc (q.levels 0) (t ∷ []) (q.levels 1 ++ q.levels 2)
contents-push q t (suc zero) =
    ap (◌++◌ (q.levels 0)) (append_assoc (q.levels 1) (t ∷ []) (q.levels 2))
    ∙ sym (append_assoc (q.levels 0) (q.levels 1) (t ∷ q.levels 2))
contents-push q t (suc (suc l)) =
    let lowest : min (suc (suc l)) 2 ≡ 2 = omega arith in
    rw lowest (
      ap (◌++◌ (q.levels 0)) (sym (append_assoc (q.levels 1) (q.levels 2) (t ∷ [])))
      ∙ sym (append_assoc (q.levels 0) (q.levels 1 ++ q.levels 2) (t ∷ [])))

-- A task that is put on a level is served behind all tasks that stand on that level or above it, and
-- before all that stand below: the calls of `pop` that follow return the tasks in this order, each
-- once, and every other in the order in which it stood. A level below the last counts as the last.
pub push-serve :
    (q : RunQueue) (t l n : ℕ)
    → length (contents (push q t l)) ≤ n
    → serve n (push q t l) ≡ ahead l q ++ t ∷ behind l q
push-serve q t l n h = serve-contents n (push q t l) h ∙ contents-push q t l
