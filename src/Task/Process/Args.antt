-- ===== src/Task/Process/Args.antt =====
-- kernel/src/task/process.rs: where the arguments of a program stand on its stack.
use alexos.Base.{
  ℕ, ◌+◌, ◌*◌, ◌/◌, ◌%◌, ◌≤◌, ◌≡◌, List, [], ◌∷◌, length, leb, true, ◌-◌, arith, refl,
}
use alexos.Base.Words.{ok}
use alexos.Task.Process.{Placed, place_args}

-- Each argument with its zero byte ends at or below the one before, the first below `top`; each
-- starts at a multiple of 8, at `floor` or above.
abbrev pub IsLaidOut : ℕ → ℕ → List (List ℕ) → List ℕ → Type 0
IsLaidOut top floor [] [] = floor ≤ top
IsLaidOut top floor [] (p ∷ ps) = ⊥
IsLaidOut top floor (a ∷ more) [] = ⊥
IsLaidOut top floor (a ∷ more) (p ∷ ps) =
    (p + length a + 1 ≤ top) × (p % 8 ≡ 0) × IsLaidOut p floor more ps

-- What the arguments take at most, each with its zero byte and the rounding down to 8.
unfoldable pub room_for : List (List ℕ) → ℕ
room_for [] = 0
room_for (a ∷ more) = length a + 8 + room_for more

-- On a stack with room for them, the arguments are all placed: their copies do not overlap, start
-- at multiples of 8, and lie between the new stack pointer and the old.
pub place_args-IsLaidOut :
    (sp : ℕ) (args : List (List ℕ))
    → room_for args ≤ sp
    → (r : Placed) × (place_args sp args ≡ ok r) × IsLaidOut sp r.sp args r.pointers
unfolding place_args room_for
place_args-IsLaidOut sp [] h = (record { sp = sp; pointers = [] }, refl, omega arith)
place_args-IsLaidOut sp (a ∷ more) h =
    let low = sp - (length a + 1) in
    let (r, e, laid) = place_args-IsLaidOut (low / 8 * 8) more (omega arith) in
    let fits : leb (length a + 1) sp ≡ true = ground arith in
    rw (fits, e)
      (
        record { sp = r.sp; pointers = low / 8 * 8 ∷ r.pointers },
        refl,
        (omega arith, omega arith, laid),
      )
