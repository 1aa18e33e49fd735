-- ===== src/Drivers/Uart.antt =====
-- kernel/src/drivers/uart.rs: the ring of received bytes, the interrupt handler that fills it, and
-- the translation of line ends on the way out. The device is the sequence of bytes that wait in its
-- receiver; what is sent is the sequence of bytes written to its transmit register.
pub mod Ring
use alexos.Base.{
  update, ℕ, ◌+◌, ◌%◌, Bool, true, false, not, Option, none, some, List, [], ◌∷◌, ◌==◌,
  if◌then◌else◌,
}

abbrev pub cap_bytes : ℕ
cap_bytes = 256

-- A write to the buffer is in range wherever `tail` is below its size.
pub record RxRing : Type 0 where
  pub buf : ℕ → ℕ
  pub head : ℕ
  pub tail : ℕ

unfoldable pub new_ring : RxRing
new_ring = record { buf = λ _. 0; head = 0; tail = 0 }

unfoldable pub push : RxRing → ℕ → Bool × RxRing
push r byte =
    let next = (r.tail + 1) % cap_bytes in
    if next == r.head
    then (false, r)
    else (true, record r { buf = update r.buf r.tail byte; tail = next })

unfoldable pub pop : RxRing → Option ℕ × RxRing
pop r =
    if r.head == r.tail
    then (none, r)
    else (some (r.buf r.head), record r { head = (r.head + 1) % cap_bytes })

unfoldable pub is_empty : RxRing → Bool
is_empty r = r.head == r.tail

unfoldable pub has_input : RxRing → Bool
unfolding is_empty
has_input r = not (is_empty r)

-- What the interrupt handler leaves: the count of bytes queued, the ring, and the bytes that still
-- wait in the device. The byte that finds the ring full has been taken from the device.
pub record Drained : Type 0 where
  pub queued : ℕ
  pub ring : RxRing
  pub waiting : List ℕ

-- The loop of `handle_interrupt`, over the bytes that the device has ready.
unfoldable pub drain : RxRing → List ℕ → ℕ → Drained
unfolding push
drain r [] queued = record { queued = queued; ring = r; waiting = [] }
drain r (b ∷ bs) queued =
    let (stored, r') = push r b in
    let rest = drain r' bs (queued + 1) in
    if stored then rest else record { queued = queued; ring = r'; waiting = bs }

unfoldable pub handle_interrupt : RxRing → List ℕ → Drained
unfolding drain
handle_interrupt r bytes = drain r bytes 0

-- The bytes that `write_bytes` sends.
unfoldable pub write_bytes : List ℕ → List ℕ
write_bytes [] = []
write_bytes (b ∷ bs) = if b == b'\n' then b'\r' ∷ b ∷ write_bytes bs else b ∷ write_bytes bs
