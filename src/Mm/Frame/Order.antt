-- ===== src/Mm/Frame/Order.antt =====
-- kernel/src/mm/frame.rs: the order of a request for a number of frames.
use native.Mathlib.Nat.{two-pow-succ}
use alexos.Base.{
  ℕ, zero, suc, ◌-◌, ◌*◌, ◌/◌, ◌^◌, ◌≤◌, ◌<◌, ◌≡◌, ◌⊎◌, inl, inr, refl, arith, ◌==◌, leb, true,
  false, ℕ_discrete, dec_lt,
}
use alexos.Base.Words.{word_mod}
use alexos.Mm.Frame.{bit_length, order_for}

-- A number lies below the power of its digits, and not below half of it.
bit_length_lem :
    (fuel n : ℕ)
    → n < 2 ^ fuel
    → (n < 2 ^ bit_length fuel n)
      × (((n ≡ 0) × (bit_length fuel n ≡ 0)) ⊎ (2 ^ bit_length fuel n ≤ 2 * n))
unfolding bit_length
bit_length_lem zero n h = (omega arith, inl (omega arith, refl))
bit_length_lem (suc fuel) n h =
    let ih = bit_length_lem fuel (n / 2) (omega (arith, two-pow-succ fuel)) in
    let two = two-pow-succ (bit_length fuel (n / 2)) in
    elim (ℕ_discrete n 0) [
      | yes e ↦ rw e (omega arith, inl (refl, refl))
      | no ne ↦
          let some_digit : (n == 0) ≡ false = ground arith in
          rw some_digit (
            omega (arith, ih.0, two),
            inr (elim ih.1 [
              | inl (none_left, z) ↦ rw z (omega arith)
              | inr half ↦ omega (arith, half, two)
            ]),
          )
    ]

-- The order of a request is the least whose block holds the frames asked for, for any count that
-- is a word.
pub order_for_lem :
    (count : ℕ)
    → count < word_mod
    → (count ≤ 2 ^ order_for count) × ((order_for count ≡ 0) ⊎ (2 ^ order_for count < 2 * count))
unfolding order_for
order_for_lem count h = elim (dec_lt 1 count) [
  | no small ↦ let low : leb count 1 ≡ true = ground arith in rw low (omega arith, inl refl)
  | yes big ↦
      let high : leb count 1 ≡ false = ground arith in
      let digits = bit_length_lem 64 (count - 1) (omega arith) in
      rw high (
        omega (arith, digits.0),
        elim digits.1 [
          | inl (z, _) ↦ absurd (omega (arith, z))
          | inr half ↦ inr (omega (arith, half))
        ],
      )
]
