-- ===== src/Drivers/Plic.antt =====
-- kernel/src/drivers/plic.rs: the interrupt controller. Its registers are a function from an offset to
-- the word last written there; the sources that `claim` gives one after the other enter as a list.
pub mod Serve
mod Tests
use alexos.Base.{
  ℕ, ◌+◌, ◌*◌, ◌/◌, ◌%◌, ◌^◌, bit_or, Option, none, some, List, [], ◌∷◌, ◌++◌, update, ltb, ◌==◌,
  if◌then◌else◌,
}
use alexos.Drivers.Uart.{RxRing, handle_interrupt}

abbrev pub uart_irq : ℕ
uart_irq = 10

abbrev pub priority_offset : ℕ
priority_offset = 0

abbrev pub enable_offset : ℕ
enable_offset = 0x2000

abbrev pub enable_stride : ℕ
enable_stride = 0x80

abbrev pub threshold_offset : ℕ
threshold_offset = 0x20_0000

abbrev pub context_stride : ℕ
context_stride = 0x1000

abbrev pub context : ℕ → ℕ
context hart = 2 * hart + 1

unfoldable pub set_priority : (ℕ → ℕ) → ℕ → ℕ → ℕ → ℕ
set_priority regs irq priority = update regs (priority_offset + irq * 4) priority

-- `enable`: the bit of the source in the bitmap of the hart's context.
unfoldable pub enable : (ℕ → ℕ) → ℕ → ℕ → ℕ → ℕ
enable regs hart irq =
    let word = enable_offset + context hart * enable_stride + (irq / 32) * 4 in
    update regs word (bit_or (regs word) (2 ^ (irq % 32)))

unfoldable pub set_threshold : (ℕ → ℕ) → ℕ → ℕ → ℕ → ℕ
set_threshold regs hart threshold =
    update regs (threshold_offset + context hart * context_stride) threshold

unfoldable pub init : (ℕ → ℕ) → ℕ → ℕ → ℕ
unfolding set_threshold set_priority enable
init regs hart = enable (set_priority (set_threshold regs hart 0) uart_irq 1) hart uart_irq

-- What the kernel does beyond the ring: the wakeup of the readers, and the write of a source to the
-- claim register.
pub data Effect : Type 0 where
  notified : Effect
  completed : ℕ → Effect

-- The ring, the bytes that wait in the serial port, and what was done, in its order.
pub record Served : Type 0 where
  pub ring : RxRing
  pub waiting : List ℕ
  pub effects : List Effect

-- The `match` on the source.
unfoldable pub serve : RxRing → List ℕ → ℕ → Served
unfolding handle_interrupt
serve r waiting irq =
    let d = handle_interrupt r waiting in
    if irq == uart_irq
    then record {
      ring = d.ring;
      waiting = d.waiting;
      effects = if ltb 0 d.queued then notified ∷ [] else [];
    }
    else record { ring = r; waiting = waiting; effects = [] }

-- The loop, over the sources claimed, each with the bytes that have arrived at the serial port before
-- it is served; then `claim` gives none.
unfoldable pub handle_external_interrupt : RxRing → List ℕ → List (ℕ × List ℕ) → Served
unfolding serve
handle_external_interrupt r waiting [] = record { ring = r; waiting = waiting; effects = [] }
handle_external_interrupt r waiting ((irq, arrived) ∷ more) =
    let s = serve r (waiting ++ arrived) irq in
    let rest = handle_external_interrupt s.ring s.waiting more in
    record rest { effects = s.effects ++ completed irq ∷ rest.effects }
