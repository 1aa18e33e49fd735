-- ===== src/Trap/Frame.antt =====
-- kernel/src/trap/context.rs: the frame that a new user task starts from. With the bits of
-- kernel/src/arch.rs, `&= !bit` takes away a bit that is set, and `|= bit` adds one that is not.
use alexos.Base.{ℕ, ◌+◌, ◌-◌, ◌/◌, ◌%◌, ◌^◌, ◌≡◌, refl, Bool, true, ◌==◌, if◌then◌else◌, arith}
use alexos.Trap.{TrapFrame, set_sp}

-- `SIE`, `SPIE` and `SPP`, by the number of the bit.
abbrev pub sie : ℕ
sie = 1

abbrev pub spie : ℕ
spie = 5

abbrev pub spp : ℕ
spp = 8

abbrev pub has_bit : ℕ → ℕ → Bool
has_bit s k = s / 2 ^ k % 2 == 1

unfoldable pub clear_bit : ℕ → ℕ → ℕ
clear_bit s k = if has_bit s k then s - 2 ^ k else s

unfoldable pub set_bit : ℕ → ℕ → ℕ
set_bit s k = if has_bit s k then s else s + 2 ^ k

-- `from_user`
unfoldable pub from_user : TrapFrame → Bool
from_user f = f.sstatus / 2 ^ spp % 2 == 0

-- `TrapFrame::default`
abbrev pub blank : TrapFrame
blank = record {
  x = λ _. 0;
  sstatus = 0;
  sepc = 0;
  kernel_sp = 0;
  kernel_satp = 0;
  kernel_trap = 0;
  kernel_hartid = 0;
}

-- `TrapFrame::new_user`; `status` is what `sstatus` reads.
unfoldable pub new_user_frame : ℕ → ℕ → ℕ → ℕ → ℕ → TrapFrame
unfolding clear_bit set_bit set_sp
new_user_frame status entry user_sp kernel_sp kernel_satp =
    set_sp
      (record blank {
        sstatus = clear_bit (set_bit (clear_bit status spp) spie) sie;
        sepc = entry;
        kernel_sp = kernel_sp;
        kernel_satp = kernel_satp;
      })
      user_sp

cleared : (s : ℕ) → clear_bit s 8 / 2 ^ 8 % 2 ≡ 0
unfolding clear_bit
cleared s = ground arith

set_keeps :
    (s : ℕ) → s / 2 ^ 8 % 2 ≡ 0 → (set_bit s 5 / 2 ^ 8 % 2 ≡ 0) × (set_bit s 5 / 2 ^ 5 % 2 ≡ 1)
unfolding set_bit
set_keeps s h = ground arith

clear_keeps :
    (s : ℕ)
    → s / 2 ^ 8 % 2 ≡ 0
    → s / 2 ^ 5 % 2 ≡ 1
    → (clear_bit s 1 / 2 ^ 8 % 2 ≡ 0)
      × (clear_bit s 1 / 2 ^ 5 % 2 ≡ 1)
      × (clear_bit s 1 / 2 ^ 1 % 2 ≡ 0)
unfolding clear_bit
clear_keeps s h l = ground arith

-- Whatever `sstatus` reads, a new user frame returns to user mode at the entry, on the user's stack,
-- with interrupts off until the return and on after it.
pub new_user_frame_lem :
    (status entry user_sp kernel_sp kernel_satp : ℕ)
    → let f = new_user_frame status entry user_sp kernel_sp kernel_satp in
      (from_user f ≡ true)
      × (has_bit f.sstatus spie ≡ true)
      × (f.sstatus / 2 ^ sie % 2 ≡ 0)
      × (f.sepc ≡ entry)
      × (f.x 2 ≡ user_sp)
      × (f.kernel_sp ≡ kernel_sp)
      × (f.kernel_satp ≡ kernel_satp)
unfolding from_user new_user_frame
new_user_frame_lem status entry user_sp kernel_sp kernel_satp =
    let a = cleared status in
    let b = set_keeps (clear_bit status 8) a in
    let c = clear_keeps (set_bit (clear_bit status 8) 5) b.0 b.1 in
    (rw c.0 refl, rw c.1 refl, c.2, refl, refl, refl, refl)
