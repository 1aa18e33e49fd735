-- ===== src/Trap/Decode.antt =====
-- kernel/src/trap/mod.rs: the numbers of trap causes, and the note on a faulting address.
use alexos.Base.{ℕ, ◌+◌, ◌^◌, ◌≤◌, ◌<◌, ◌≡◌, ◌↔◌, arith, false}
use alexos.Mm.Addr.{page_size, is_canonical}
use alexos.Mm.Addr.Sv39.{is_canonical_iff}
use alexos.Trap.{
  fetch, load, store, Cause, software_interrupt, timer_interrupt, external_interrupt, user_ecall,
  illegal_instruction, breakpoint, page_fault, access_fault, unknown, decode, describe_address,
  non_canonical,
}

-- The number of an exception or an interrupt in the privileged architecture. There is no access
-- fault of a fetch among the causes that the kernel names; its number is 1.
pub encode : Cause → ℕ
encode software_interrupt = 2 ^ 63 + 1
encode timer_interrupt = 2 ^ 63 + 5
encode external_interrupt = 2 ^ 63 + 9
encode user_ecall = 8
encode illegal_instruction = 2
encode breakpoint = 3
encode (page_fault fetch) = 12
encode (page_fault load) = 13
encode (page_fault store) = 15
encode (access_fault fetch) = 1
encode (access_fault load) = 5
encode (access_fault store) = 7
encode (unknown scause) = scause

-- Every word is the number of the cause that it is decoded to: no two words are taken for one cause.
pub encode-decode : (scause : ℕ) → scause < 2 ^ 64 → encode (decode scause) ≡ scause
unfolding encode decode
encode-decode scause h = ground arith

-- The fatal trap's note calls an address non-canonical exactly when Sv39 does, for every address
-- above the first page.
pub describe_address-is_canonical :
    (a : ℕ)
    → a < 2 ^ 64
    → (describe_address a ≡ non_canonical) ↔ ((is_canonical a ≡ false) × (page_size ≤ a))
unfolding describe_address
describe_address-is_canonical a h = ground (arith, is_canonical_iff a h)
