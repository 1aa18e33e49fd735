-- ===== src/Sync/Spin/Exclusion.antt =====
-- kernel/src/sync/spin.rs: the states that the harts can reach.
use alexos.Base.{ℕ, Bool, true, false, ◌≡◌, refl, arith}
use alexos.Sync.Spin.{
  Place, outside, spinning, trying, refused, holding, released, Machine, Move, lock, try_lock, spin,
  take, try_take, try_fail, give_up, unlock, restore, by, Reach, here, later, start,
}

abbrev pub holds : Place → Bool
holds (holding _) = true
holds _ = false

-- What a place remembers of the interrupt flag.
abbrev pub remembers : Place → Bool → Bool
remembers outside now = now
remembers (spinning r) now = r
remembers (trying r) now = r
remembers (refused r) now = r
remembers (holding r) now = r
remembers (released r) now = r

abbrev pub is_outside : Place → Bool
is_outside outside = true
is_outside _ = false

-- `flags` are the interrupt flags of the harts while they are outside the lock. For two harts:
pub record InvAt (flags : ℕ → Bool) (m : Machine) (i j : ℕ) : Type 0 where
  pub one_holder : holds (m.place i) ≡ true → holds (m.place j) ≡ true → i ≡ j
  pub word : holds (m.place i) ≡ true → m.locked ≡ true
  pub masked : is_outside (m.place i) ≡ false → m.intr i ≡ false
  pub remembered : remembers (m.place i) (m.intr i) ≡ flags i

abbrev pub Inv : (ℕ → Bool) → Machine → Type 0
Inv flags m = (i j : ℕ) → InvAt flags m i j

Move-Inv :
    {flags : ℕ → Bool} {m : Machine} {h : ℕ} {n : Machine} → Move m h n → Inv flags m → Inv flags n
Move-Inv {h = h} (lock e) v i j = ground (arith, v i j, v h j, v i h)
Move-Inv {h = h} (try_lock e) v i j = ground (arith, v i j, v h j, v i h)
Move-Inv {h = h} (spin e) v i j = v i j
Move-Inv {h = h} (take e f) v i j = ground (arith, v i j, v h j, v i h, v j i)
Move-Inv {h = h} (try_take e f) v i j = ground (arith, v i j, v h j, v i h, v j i)
Move-Inv {h = h} (try_fail e f) v i j = ground (arith, v i j, v h j, v i h)
Move-Inv {h = h} (give_up e) v i j = ground (arith, v i j, v h j, v i h)
Move-Inv {h = h} (unlock e) v i j = ground (arith, v i j, v h j, v i h)
Move-Inv {h = h} (restore e) v i j = ground (arith, v i j, v h j, v i h)

reached-Inv : {flags : ℕ → Bool} {m : Machine} → Reach (start flags) m → Inv flags m
reached-Inv here i j = record {
  one_holder = λ h. cc;
  word = λ h. cc;
  masked = λ h. cc;
  remembered = refl;
}
reached-Inv (later r (by h mv)) i j = Move-Inv mv (reached-Inv r) i j

-- However the harts are interleaved from a free lock, two harts that hold it are the same one, the
-- lock's word says that it is held, and the holder has its interrupts masked.
pub mutual_exclusion :
    {flags : ℕ → Bool} {m : Machine}
    → Reach (start flags) m
    → (i j : ℕ) → holds (m.place i) ≡ true
    → holds (m.place j) ≡ true
    → (i ≡ j) × (m.locked ≡ true) × (m.intr i ≡ false)
mutual_exclusion r i j hi hj =
    let v = reached-Inv r i j in (v.one_holder hi hj, v.word hi, ground arith)

-- However the harts are interleaved from a free lock, a hart that is outside the lock's operations
-- has the interrupt flag with which it started, even if `try_lock` was refused in between.
pub outside-intr :
    {flags : ℕ → Bool} {m : Machine}
    → Reach (start flags) m
    → (i : ℕ) → m.place i ≡ outside
    → m.intr i ≡ flags i
outside-intr r i e = let v = reached-Inv r i i in ground arith
