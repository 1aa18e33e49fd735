-- ===== src/Drivers/Plic/Serve.antt =====
-- kernel/src/drivers/plic.rs: what a run of the handler does to the controller, the ring and the
-- readers.
use mathlib.Core.List.{append-nil}
use alexos.Base.{
  ℕ, ◌≡◌, refl, ap, ◌∙◌, inl, inr, Bool, true, false, List, [], ◌∷◌, ◌++◌, map, take, length, ltb,
  ◌==◌, Bool-cases, length-take, arith,
}
use alexos.Drivers.Uart.{RxRing, handle_interrupt}
use alexos.Drivers.Uart.Ring.{IsValid, contents, room, handle_interrupt_lem}
use alexos.Drivers.Plic.{
  uart_irq, Effect, notified, completed, Served, serve, handle_external_interrupt,
}

-- The sources completed, in their order.
abbrev pub completions : List Effect → List ℕ
completions [] = []
completions (notified ∷ es) = completions es
completions (completed irq ∷ es) = irq ∷ completions es

-- Were the readers woken?
abbrev pub has_notified : List Effect → Bool
has_notified [] = false
has_notified (notified ∷ es) = true
has_notified (completed irq ∷ es) = has_notified es

-- What one source comes to.
record Single (r : RxRing) (s : Served) : Type 0 where
  valid : IsValid s.ring
  quiet : completions s.effects ≡ []
  told : has_notified s.effects ≡ false → contents s.ring ≡ contents r

append-no_bytes : (xs ys : List ℕ) → length ys ≡ 0 → xs ++ ys ≡ xs
append-no_bytes xs [] e = append-nil xs
append-no_bytes xs (y ∷ ys) e = absurd (omega arith)

serve-Single :
    (r : RxRing) (waiting : List ℕ) (irq : ℕ) → IsValid r → Single r (serve r waiting irq)
unfolding serve
serve-Single r waiting irq v = elim (Bool-cases (irq == uart_irq)) [
  | inr h ↦ rw h (record { valid = v; quiet = refl; told = λ _. refl })
  | inl h ↦
      let d = handle_interrupt_lem r waiting v in
      rw h (elim (Bool-cases (ltb 0 (handle_interrupt r waiting).queued)) [
        | inl some_bytes ↦ rw some_bytes (record {
          valid = d.0;
          quiet = refl;
          told = λ e. absurd (let bad : true ≡ false = e in cc);
        })
        | inr no_bytes ↦ rw no_bytes (record {
          valid = d.0;
          quiet = refl;
          told = λ _.
              d.2
              ∙ append-no_bytes (contents r) (take (room r) waiting) (
                  let queued : (handle_interrupt r waiting).queued ≡ 0 = ground arith in
                  let counted = d.1 in omega (arith, length-take (room r) waiting));
        })
      ])
]

-- What a run over `claims` comes to.
abbrev pub Serves : RxRing → List (ℕ × List ℕ) → Served → Type 0
Serves r claims s =
    IsValid s.ring
    × (completions s.effects ≡ map (λ c. c.0) claims)
    × (has_notified s.effects ≡ false → contents s.ring ≡ contents r)

completions-completed :
    (es : List Effect) (irq : ℕ) (rest : List Effect)
    → completions es ≡ []
    → completions (es ++ completed irq ∷ rest) ≡ irq ∷ completions rest
completions-completed [] irq rest e = refl
completions-completed (notified ∷ es) irq rest e = completions-completed es irq rest e
completions-completed (completed i ∷ es) irq rest e =
    absurd (let bad : ◌≡◌ {A = List ℕ} (i ∷ completions es) [] = e in cc)

has_notified-append :
    (es : List Effect) (irq : ℕ) (rest : List Effect)
    → has_notified (es ++ completed irq ∷ rest) ≡ false
    → (has_notified es ≡ false) × (has_notified rest ≡ false)
has_notified-append [] irq rest e = (refl, e)
has_notified-append (notified ∷ es) irq rest e = absurd (let bad : true ≡ false = e in cc)
has_notified-append (completed i ∷ es) irq rest e = has_notified-append es irq rest e

-- From a valid ring, the handler keeps the ring valid and completes every source that it claims, also
-- one without a handler, once and in the order of the claims; where it does not wake the readers, the
-- ring has the contents that it had.
pub handle_external_interrupt-Serves :
    (r : RxRing) (waiting : List ℕ) (claims : List (ℕ × List ℕ))
    → IsValid r
    → Serves r claims (handle_external_interrupt r waiting claims)
unfolding handle_external_interrupt
handle_external_interrupt-Serves r waiting [] v = (v, refl, λ _. refl)
handle_external_interrupt-Serves r waiting ((irq, arrived) ∷ more) v =
    let one = serve-Single r (waiting ++ arrived) irq v in
    let s = serve r (waiting ++ arrived) irq in
    let ih = handle_external_interrupt-Serves s.ring s.waiting more one.valid in
    let rest = handle_external_interrupt s.ring s.waiting more in
    (
      ih.0,
      completions-completed s.effects irq rest.effects one.quiet ∙ ap (λ is. irq ∷ is) ih.1,
      λ e.
          let both = has_notified-append s.effects irq rest.effects e in
          ih.2 both.1 ∙ one.told both.0,
    )
