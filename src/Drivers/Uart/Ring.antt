-- ===== src/Drivers/Uart/Ring.antt =====
-- kernel/src/drivers/uart.rs: the receive ring, against a queue of bytes.
use mathlib.Core.List.{append-nil, append_assoc}
use alexos.Base.{
  ℕ, zero, suc, ◌+◌, ◌-◌, ◌%◌, ◌<◌, ◌≡◌, ◌≢◌, refl, ap, Bool, true, false, Option, none, some, List,
  [], ◌∷◌, ◌++◌, update, length, length-append, take_nil, take-cons_pos, take, drop, min,
  ℕ_discrete, ltb, if◌then◌else◌, arith,
}
use alexos.Drivers.Uart.{RxRing, cap_bytes, push, pop, Drained, drain, handle_interrupt}

-- Both indices stay within the buffer.
pub record IsValid (r : RxRing) : Type 0 where
  pub head_in : r.head < cap_bytes
  pub tail_in : r.tail < cap_bytes

-- The `n` bytes from an index on, going round at the end of the buffer.
pub window : (ℕ → ℕ) → ℕ → ℕ → List ℕ
window buf h zero = []
window buf h (suc n) = buf h ∷ window buf ((h + 1) % cap_bytes) n

abbrev pub stored : RxRing → ℕ
stored r = (r.tail + cap_bytes - r.head) % cap_bytes

-- The bytes received and not yet read, oldest first.
pub contents : RxRing → List ℕ
unfolding window
contents r = window r.buf r.head (stored r)

length-window : (buf : ℕ → ℕ) (h n : ℕ) → length (window buf h n) ≡ n
unfolding window
length-window buf h zero = refl
length-window buf h (suc n) = ap suc (length-window buf ((h + 1) % cap_bytes) n)

-- Writing just past a window extends it by that byte.
window-update :
    (buf : ℕ → ℕ) (h n i x : ℕ)
    → h < cap_bytes
    → n < cap_bytes
    → i ≡ (h + n) % cap_bytes
    → window (update buf i x) h (suc n) ≡ window buf h n ++ x ∷ []
unfolding window
window-update buf h zero i x hh hn e = ground arith
window-update buf h (suc n) i x hh hn e =
    ground (arith, window-update buf ((h + 1) % cap_bytes) n i x)

window-step :
    (buf : ℕ → ℕ) (h n : ℕ)
    → n ≢ 0
    → window buf h n ≡ buf h ∷ window buf ((h + 1) % cap_bytes) (n - 1)
unfolding window
window-step buf h zero p = absurd (p refl)
window-step buf h (suc n) p = ap (λ k. buf h ∷ window buf ((h + 1) % cap_bytes) k) (omega arith)

window-len : (buf : ℕ → ℕ) (h m n : ℕ) → m ≡ n → window buf h m ≡ window buf h n
window-len buf h m n e = ap (window buf h) e

-- A queue that holds at most one byte fewer than the buffer; a byte that does not fit is dropped.
abbrev pub queue_push : List ℕ → ℕ → Bool × List ℕ
queue_push q x = if ltb (length q) (cap_bytes - 1) then (true, q ++ x ∷ []) else (false, q)

abbrev pub queue_pop : List ℕ → Option ℕ × List ℕ
queue_pop [] = (none, [])
queue_pop (x ∷ q) = (some x, q)

-- `push` keeps both indices within the buffer, and does to the contents what `queue_push` does.
pub push_refines :
    (r : RxRing) (x : ℕ)
    → IsValid r
    → IsValid (push r x).1 × (((push r x).0, contents (push r x).1) ≡ queue_push (contents r) x)
unfolding push contents
push_refines r x v = ground (
  arith,
  length-window r.buf r.head (stored r),
  window-update r.buf r.head (stored r) r.tail x,
  window-len (update r.buf r.tail x) r.head (stored (push r x).1) (suc (stored r)),
)

-- `pop` keeps both indices within the buffer, and takes the oldest byte.
pub pop_refines :
    (r : RxRing)
    → IsValid r
    → IsValid (pop r).1 × (((pop r).0, contents (pop r).1) ≡ queue_pop (contents r))
unfolding pop contents
pop_refines r v = ground (
  arith,
  window-step r.buf r.head (stored r),
  window-len r.buf r.head (stored r) 0,
  window-len r.buf ((r.head + 1) % cap_bytes) (stored r - 1) (stored (pop r).1),
)

length-contents : (r : RxRing) → length (contents r) ≡ stored r
unfolding contents
length-contents r = length-window r.buf r.head (stored r)

-- The room that is left.
abbrev pub room : RxRing → ℕ
room r = cap_bytes - 1 - length (contents r)

push_full : (r : RxRing) (x : ℕ) → IsValid r → room r ≡ 0 → push r x ≡ (false, r)
unfolding push
push_full r x v full = ground (arith, length-contents r)

push-room :
    (r : RxRing) (x : ℕ)
    → IsValid r
    → 0 < room r
    → ((push r x).0 ≡ true) × (contents (push r x).1 ≡ contents r ++ x ∷ [])
push-room r x v h = ground (arith, push_refines r x v)

abbrev Drains : RxRing → List ℕ → ℕ → Drained → Type 0
Drains r bytes queued d =
    IsValid d.ring
    × (d.queued ≡ queued + min (length bytes) (room r))
    × (contents d.ring ≡ contents r ++ take (room r) bytes)
    × (d.waiting ≡ drop (suc (room r)) bytes)

drain-Drains :
    (r : RxRing) (bytes : List ℕ) (queued : ℕ)
    → IsValid r
    → Drains r bytes queued (drain r bytes queued)
unfolding drain
drain-Drains r [] queued v = (v, omega arith, rw (take_nil, append-nil), refl)
drain-Drains r (b ∷ bs) queued v = elim (ℕ_discrete (room r) 0) [
  | yes full ↦ rw (push_full r b v full, full, append-nil) (v, omega arith, refl, refl)
  | no ne ↦
      let kept = (push_refines r b v).0 in
      let (stored, more) = push-room r b v (omega arith) in
      let ih = drain-Drains (push r b).1 bs (queued + 1) kept in
      let fewer : room (push r b).1 ≡ room r - 1 =
        omega (arith, ap length more, length-append (contents r) (b ∷ [])) in
      let same : suc (room r - 1) ≡ room r = omega arith in
      rw stored (
        ih.0,
        omega (arith, ih.1),
        rw (ih.2, fewer, more, append_assoc, take-cons_pos (room r) b bs ne),
        rw (ih.3, fewer) (ap (λ k. drop k bs) same),
      )
]

-- The interrupt handler queues the waiting bytes in order, as many as fit, and counts them. If a
-- byte does not fit, that one byte is lost, and the later ones stay in the device.
pub handle_interrupt_lem :
    (r : RxRing) (bytes : List ℕ)
    → IsValid r
    → IsValid (handle_interrupt r bytes).ring
      × ((handle_interrupt r bytes).queued ≡ min (length bytes) (room r))
      × (contents (handle_interrupt r bytes).ring ≡ contents r ++ take (room r) bytes)
      × ((handle_interrupt r bytes).waiting ≡ drop (suc (room r)) bytes)
unfolding handle_interrupt
handle_interrupt_lem r bytes v =
    let d = drain-Drains r bytes 0 v in (d.0, omega (arith, d.1), d.2, d.3)
