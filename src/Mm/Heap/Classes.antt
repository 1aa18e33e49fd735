-- ===== src/Mm/Heap/Classes.antt =====
-- kernel/src/mm/heap.rs: the class that serves a request.
use alexos.Base.{ℕ, ◌-◌, ◌⊎◌, ◌≤◌, ◌<◌, ◌≡◌, Option, none, some, max, arith}
use alexos.Mm.Heap.{Layout, class_for, class_size, max_class_size, position_from}

-- What a choice of class says of the request.
abbrev pub Serves : Layout → Option ℕ → Type 0
Serves l none = max_class_size < max l.size l.align
Serves l (some c) =
    (c < 9)
    × (l.size ≤ class_size c)
    × (l.align ≤ class_size c)
    × ((c ≡ 0) ⊎ (class_size (c - 1) < max l.size l.align))

-- A request is served by the least class that holds both its size and its alignment, and by no
-- class only if one of the two is above the largest.
pub class_for-Serves : (l : Layout) → Serves l (class_for l)
unfolding class_for position_from
class_for-Serves l = ground arith
