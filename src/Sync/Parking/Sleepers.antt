-- ===== src/Sync/Parking/Sleepers.antt =====
-- kernel/src/sync/wait.rs: who wakes the tasks that sleep in `lock`.
use alexos.Base.{
  ℕ, ◌<◌, ◌≢◌, Bool, true, false, ◌≡◌, ◌⊎◌, inl, inr, refl, sym, ap, ◌∙◌, List, [], ◌∷◌, ◌++◌,
  update, ◌==◌, Bool-cases, arith,
}
use alexos.Base.Count.{times, times-append}
use alexos.Sync.Wait.{remove_first}
use alexos.Sync.Parking.{
  Place, outside, locking, testing, parking, queued, asleep, returned, holding, released, waking,
  Machine, at, is_asleep, Move, lock, take, fail, test_free, test_held, park, sleep, stay, leave,
  try_lock, unlock, wake_none, wake_one, wake, note, by, Reach, here, later, start,
}

times-remove_first : (t u : ℕ) (us : List ℕ) → t ≢ u → times t (remove_first u us) ≡ times t us
unfolding times remove_first
times-remove_first t u [] ne = refl
times-remove_first t u (x ∷ us) ne = ground (arith, times-remove_first t u us ne)

-- A task `u` that is behind `push_back` or asleep is expected: its entry is in the queue, or a task is
-- on its way to wake it.
abbrev pub Expected : Machine → ℕ → Type 0
Expected m u = (0 < times u m.waiters) ⊎ ((w : ℕ) × (m.place w ≡ waking u))

-- Before it sleeps there may be a note instead.
pub record IsKept (m : Machine) (u : ℕ) : Type 0 where
  pub before : m.place u ≡ queued → (m.pending u ≡ true) ⊎ Expected m u
  pub during : m.place u ≡ asleep → Expected m u

abbrev pub Inv : Machine → Type 0
Inv m = (u : ℕ) → IsKept m u

abbrev is_waking : Place → Bool
is_waking (waking _) = true
is_waking _ = false

abbrev target : Place → ℕ
target (waking u) = u
target _ = 0

abbrev is_down : Place → Bool
is_down queued = true
is_down asleep = true
is_down _ = false

-- A task that is not down needs no waking.
up-IsKept : (m : Machine) (u : ℕ) → is_down (m.place u) ≡ false → IsKept m u
up-IsKept m u up = record {
  before = λ e. absurd (let bad : true ≡ false = sym (ap is_down e) ∙ up in cc);
  during = λ e. absurd (let bad : true ≡ false = sym (ap is_down e) ∙ up in cc);
}

-- The places after task `t` went on to `p`, with the queue `ws` and the notes `notes`.
abbrev moved : Machine → ℕ → Place → Bool → List ℕ → (ℕ → Bool) → Machine
moved m t p l ws notes = record {
  locked = l;
  waiters = ws;
  pending = notes;
  place = update m.place t p;
}

-- A task that wakes nobody leaves those who are on their way to wake another.
moved-Expected :
    (m : Machine) (t u : ℕ) (p : Place) (l : Bool) (ws : List ℕ) (notes : ℕ → Bool)
    → is_waking (m.place t) ≡ false
    → (0 < times u m.waiters → 0 < times u ws)
    → Expected m u
    → Expected (moved m t p l ws notes) u
moved-Expected m t u p l ws notes quiet more (inl waits) = inl (more waits)
moved-Expected m t u p l ws notes quiet more (inr (w, e)) =
    let ne : (w == t) ≡ false = ground (arith, e, quiet) in inr (w, rw ne e)

others :
    (m : Machine) (t u : ℕ) (p : Place) (l : Bool) (ws : List ℕ) (notes : ℕ → Bool)
    → is_waking (m.place t) ≡ false
    → (0 < times u m.waiters → 0 < times u ws)
    → notes u ≡ m.pending u
    → (u == t) ≡ false
    → IsKept m u
    → IsKept (moved m t p l ws notes) u
others m t u p l ws notes quiet more same ne v =
    let on = moved-Expected m t u p l ws notes quiet more in
    record {
      before = rw ne (λ e. elim (v.before e) [ inl n ↦ inl (same ∙ n) | inr x ↦ inr (on x) ]);
      during = rw ne (λ e. on (v.during e));
    }

-- A task that does not go down itself.
goes_on :
    (m : Machine) (t u : ℕ) (p : Place) (l : Bool) (ws : List ℕ) (notes : ℕ → Bool)
    → is_waking (m.place t) ≡ false
    → is_down p ≡ false
    → ((u == t) ≡ false → 0 < times u m.waiters → 0 < times u ws)
    → ((u == t) ≡ false → notes u ≡ m.pending u)
    → IsKept m u
    → IsKept (moved m t p l ws notes) u
goes_on m t u p l ws notes quiet up more same v = elim (Bool-cases (u == t)) [
  | inl at ↦ up-IsKept _ u (rw at up)
  | inr ne ↦ others m t u p l ws notes quiet (more ne) (same ne) ne v
]

-- The head of the queue is taken by a task that goes to wake it.
popped :
    (m : Machine) (t u w : ℕ) (us : List ℕ)
    → m.place t ≡ released
    → m.waiters ≡ w ∷ us
    → Expected m u
    → Expected (record (at m t (waking w)) { waiters = us }) u
unfolding times
popped m t u w us e f (inr (x, g)) =
    let ne : (x == t) ≡ false = ground (arith, e, g) in inr (x, rw ne g)
popped m t u w us e f (inl waits) = elim (Bool-cases (w == u)) [
  | inl same ↦
      let here : w ≡ u = ground arith in
      inr (t, let eq : (t == t) ≡ true = ground arith in rw eq (ap waking here))
  | inr other ↦ let more : 0 < times u (w ∷ us) = rw f at waits in inl (ground (arith, more, other))
]

-- A task that has woken `w`, or left a note with it, is not the one that `u` waits for.
served :
    (m : Machine) (t u w : ℕ) (n : Machine)
    → m.place t ≡ waking w
    → (u == w) ≡ false
    → n.waiters ≡ m.waiters
    → ((x : ℕ) → (x == t) ≡ false → m.place x ≡ waking u → n.place x ≡ waking u)
    → Expected m u
    → Expected n u
served m t u w n e ne queue on (inl waits) = inl (rw queue waits)
served m t u w n e ne queue on (inr (x, g)) =
    let other : (x == t) ≡ false = elim (Bool-cases (x == t)) [
      | inl at ↦
          let here : x ≡ t = ground arith in
          let same : u ≡ w = sym (ap target g) ∙ ap (λ y. target (m.place y)) here ∙ ap target e in
          absurd (ground arith)
      | inr ne ↦ ne
    ] in
    inr (x, on x other g)

entered : (t u : ℕ) (ws : List ℕ) → u ≡ t → 0 < times u (ws ++ t ∷ [])
entered t u ws last =
    let one : 0 < times u (t ∷ []) = unfold times in ground arith in
    omega (arith, one, times-append u ws (t ∷ []))

Move-Inv : {m : Machine} {t : ℕ} {n : Machine} → Move m t n → Inv m → Inv n
Move-Inv {m} {t} (lock e) v u =
    goes_on m t u locking m.locked m.waiters m.pending (ap is_waking e) refl (λ _ x. x) (λ _. refl)
      (v u)
Move-Inv {m} {t} (take e f) v u =
    goes_on m t u holding true m.waiters m.pending (ap is_waking e) refl (λ _ x. x) (λ _. refl)
      (v u)
Move-Inv {m} {t} (fail e f) v u =
    goes_on m t u testing m.locked m.waiters m.pending (ap is_waking e) refl (λ _ x. x) (λ _. refl)
      (v u)
Move-Inv {m} {t} (test_free e f) v u =
    goes_on m t u locking m.locked m.waiters m.pending (ap is_waking e) refl (λ _ x. x) (λ _. refl)
      (v u)
Move-Inv {m} {t} (test_held e f) v u =
    goes_on m t u parking m.locked m.waiters m.pending (ap is_waking e) refl (λ _ x. x) (λ _. refl)
      (v u)
Move-Inv {m} {t} (park e) v u = elim (Bool-cases (u == t)) [
  | inl at ↦
      let here : u ≡ t = ground arith in
      let waits : 0 < times u (m.waiters ++ t ∷ []) = entered t u m.waiters here in
      record { before = λ _. inr (inl waits); during = λ _. inl waits }
  | inr ne ↦
      others m t u queued m.locked (m.waiters ++ t ∷ []) m.pending (ap is_waking e)
        (λ x. omega (arith, x, times-append u m.waiters (t ∷ []))) refl ne (v u)
]
Move-Inv {m} {t} (sleep e f) v u = elim (Bool-cases (u == t)) [
  | inl at ↦
      let here : u ≡ t = ground arith in
      let was : (m.pending u ≡ true) ⊎ Expected m u = (v u).before (ap m.place here ∙ e) in
      let on = moved-Expected m t u asleep m.locked m.waiters m.pending (ap is_waking e) (λ x. x) in
      record {
        before = rw at (λ g. absurd (let bad : asleep ≡ queued = g in cc));
        during = λ _. elim was [
          | inl n ↦ absurd (let bad : true ≡ false = sym n ∙ ap m.pending here ∙ f in cc)
          | inr x ↦ on x
        ];
      }
  | inr ne ↦
      others m t u asleep m.locked m.waiters m.pending (ap is_waking e) (λ x. x) refl ne (v u)
]
Move-Inv {m} {t} (stay e f) v u =
    goes_on m t u returned m.locked m.waiters (update m.pending t false) (ap is_waking e) refl
      (λ _ x. x) (λ ne. rw ne refl) (v u)
Move-Inv {m} {t} (leave e) v u =
    goes_on m t u testing m.locked (remove_first t m.waiters) m.pending (ap is_waking e) refl
      (λ ne x. omega (arith, x, times-remove_first u t m.waiters (ground (arith, ne)))) (λ _. refl)
      (v u)
Move-Inv {m} {t} (try_lock e f) v u =
    goes_on m t u holding true m.waiters m.pending (ap is_waking e) refl (λ _ x. x) (λ _. refl)
      (v u)
Move-Inv {m} {t} (unlock e) v u =
    goes_on m t u released false m.waiters m.pending (ap is_waking e) refl (λ _ x. x) (λ _. refl)
      (v u)
Move-Inv {m} {t} (wake_none e f) v u =
    goes_on m t u outside m.locked m.waiters m.pending (ap is_waking e) refl (λ _ x. x) (λ _. refl)
      (v u)
Move-Inv {m} {t} (wake_one {u = w} {us = us} e f) v u = elim (Bool-cases (u == t)) [
  | inl at ↦ up-IsKept _ u (rw at refl)
  | inr ne ↦
      let on = popped m t u w us e f in
      record {
        before = rw ne (λ g. elim ((v u).before g) [ inl n ↦ inl n | inr x ↦ inr (on x) ]);
        during = rw ne (λ g. on ((v u).during g));
      }
]
Move-Inv {m} {t} (wake {u = w} e f) v u = elim (Bool-cases (u == w)) [
  | inl at ↦ up-IsKept _ u (rw at refl)
  | inr ne ↦ elim (Bool-cases (u == t)) [
    | inl at ↦ up-IsKept _ u (rw (ne, at) refl)
    | inr other ↦
        let n = at (at m t outside) w returned in
        let on =
          served m t u w n e ne refl (λ x away g.
            let awake : (x == w) ≡ false = ground (arith, f, g) in rw (awake, away) g) in
        record {
          before =
              rw (ne, other) (λ g. elim ((v u).before g) [ inl y ↦ inl y | inr x ↦ inr (on x) ]);
          during = rw (ne, other) (λ g. on ((v u).during g));
        }
  ]
]
Move-Inv {m} {t} (note {u = w} e f) v u = elim (Bool-cases (u == t)) [
  | inl at ↦ up-IsKept _ u (rw at refl)
  | inr other ↦
      let n = record (at m t outside) { pending = update m.pending w true } in
      let keep : (x : ℕ) → (x == t) ≡ false → m.place x ≡ waking u → n.place x ≡ waking u =
        λ x away g. rw away g in
      elim (Bool-cases (u == w)) [
        | inl at ↦
            let same : u ≡ w = ground arith in
            record {
              before = λ _. inl (rw at refl);
              during = rw other (λ g.
                  absurd
                    (let bad : true ≡ false = ap is_asleep (sym g ∙ ap m.place same) ∙ f in cc));
            }
        | inr ne ↦
            let on = served m t u w n e ne refl keep in
            record {
              before =
                  rw (ne, other)
                    (λ g. elim ((v u).before g) [ inl y ↦ inl y | inr x ↦ inr (on x) ]);
              during = rw other (λ g. on ((v u).during g));
            }
      ]
]

reached-Inv : {m : Machine} → Reach start m → Inv m
reached-Inv here u = up-IsKept start u refl
reached-Inv (later r (by t mv)) u = Move-Inv mv (reached-Inv r) u

-- However the tasks are interleaved from a free mutex, a task that sleeps in `lock` is in the queue,
-- or another task is on its way to wake it.
pub asleep-Expected : {m : Machine} → Reach start m → (u : ℕ) → m.place u ≡ asleep → Expected m u
asleep-Expected r u e = (reached-Inv r u).during e
