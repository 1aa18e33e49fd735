-- ===== src/Syscall/Waitpid.antt =====
-- kernel/src/syscall/mod.rs: one round of `waitpid`, against the list of children.
use alexos.Base.{
  ◌≡◌, inl, inr, refl, true, false, ◌&&◌, Option, none, some, List, [], ◌∷◌, ◌++◌, arith, ap,
  Bool-cases, if◌then◌else◌,
}
use alexos.Task.Process.{Isize}
use alexos.Syscall.{
  Child, is_zombie, matches, find_zombie, any_child, Waited, reaped, no_child, sleeps,
  waitpid_round,
}

abbrev pub Ripe : Isize → Child → Type 0
Ripe want c = (matches want c.pid ≡ true) × (is_zombie c.state ≡ true)

abbrev pub All {ℓ κ} : {A : Type ℓ} → (A → Type κ) → List A → Type κ
All P [] = Unit
All P (x ∷ xs) = P x × All P xs

-- The children asked for are still alive.
abbrev pub Unripe : Isize → Child → Type 0
Unripe want c = (matches want c.pid && is_zombie c.state) ≡ false

-- The split of the children at the first one that is ripe.
pub data Scanned (want : Isize) (cs : List Child) : Option (Child × List Child) → Type 0 where
  found :
      (before after : List Child) (z : Child)
      → cs ≡ before ++ z ∷ after
      → All (Unripe want) before
      → Ripe want z
      → Scanned want cs (some (z, before ++ after))
  missed : All (Unripe want) cs → Scanned want cs none

keep_scanning :
    (want : Isize) (c : Child) (cs : List Child) {r : Option (Child × List Child)}
    → Unripe want c
    → Scanned want cs r
    → Scanned want (c ∷ cs) (elim r [ none ↦ none | some (z, others) ↦ some (z, c ∷ others) ])
keep_scanning want c cs u (found before after z e h r) =
    found (c ∷ before) after z (ap (λ k. c ∷ k) e) (u, h) r
keep_scanning want c cs u (missed h) = missed (u, h)

pub find_zombie-Scanned : (want : Isize) (cs : List Child) → Scanned want cs (find_zombie want cs)
unfolding find_zombie
find_zombie-Scanned want [] = missed tt
find_zombie-Scanned want (c ∷ cs) = elim (Bool-cases (matches want c.pid && is_zombie c.state)) [
  | inl ripe ↦ rw ripe (found [] cs c refl tt (ground arith))
  | inr not_yet ↦ rw not_yet (keep_scanning want c cs not_yet (find_zombie-Scanned want cs))
]

any_child-All :
    (want : Isize) (cs : List Child)
    → any_child want cs ≡ false
    → All (λ c. matches want c.pid ≡ false) cs
unfolding any_child
any_child-All want [] e = tt
any_child-All want (c ∷ cs) e = (ground arith, any_child-All want cs (ground arith))

-- What an answer says of the children.
abbrev pub Outcome : Isize → List Child → Waited → Type 0
Outcome want cs (reaped z others) =
    (before : List Child) × (after : List Child) × (cs ≡ before ++ z ∷ after)
    × (others ≡ before ++ after)
    × All (Unripe want) before
    × Ripe want z
Outcome want cs no_child = All (λ c. matches want c.pid ≡ false) cs
Outcome want cs sleeps = (any_child want cs ≡ true) × All (Unripe want) cs

Scanned-Outcome :
    (want : Isize) (cs : List Child) {r : Option (Child × List Child)}
    → Scanned want cs r
    → Outcome want cs (elim r [
      | some (z, others) ↦ reaped z others
      | none ↦ if any_child want cs then sleeps else no_child
    ])
Scanned-Outcome want cs (found before after z e h r) = (before, after, e, refl, h, r)
Scanned-Outcome want cs (missed h) = elim (Bool-cases (any_child want cs)) [
  | inl any ↦ rw any (any, h)
  | inr none_asked ↦ rw none_asked (any_child-All want cs none_asked)
]

-- A round reaps the first child that was asked for and is a zombie, and keeps the others in order;
-- it fails only where no child was asked for; and it sleeps only where one was, and none that was
-- asked for is a zombie.
pub waitpid_round-Outcome :
    (want : Isize) (cs : List Child) → Outcome want cs (waitpid_round want cs)
unfolding waitpid_round
waitpid_round-Outcome want cs = Scanned-Outcome want cs (find_zombie-Scanned want cs)
