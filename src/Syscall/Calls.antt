-- ===== src/Syscall/Calls.antt =====
-- kernel/src/syscall/mod.rs: `sys_read`, `sys_getppid`, `sys_sbrk`.
use alexos.Base.{
  ℕ, zero, suc, ◌≡◌, ◌≢◌, ◌⊎◌, inl, inr, min, refl, ap, sym, ◌∙◌, Bool, true, not, Option, none,
  some, List, [], ◌∷◌, false, length, length-take, take, drop, ◌==◌, if◌then◌else◌, Bool-cases,
  arith,
}
use alexos.Task.{TaskInner}
use alexos.Task.Process.{Isize, Process, adjust_brk}
use alexos.Drivers.Uart.{RxRing, pop}
use alexos.Drivers.Uart.Ring.{IsValid, contents, queue_pop, pop_refines}
use alexos.Syscall.{ebadf, enomem, efault, Reply, value, error, bad_range}

-- `while buf.len() < len { match read_byte() … }`, with `left` bytes of room.
unfoldable pub take_bytes : ℕ → RxRing → List ℕ × RxRing
unfolding pop
take_bytes zero r = ([], r)
take_bytes (suc left) r =
    let rest = take_bytes left (pop r).1 in
    elim (pop r).0 [ none ↦ ([], (pop r).1) | some b ↦ (b ∷ rest.0, rest.1) ]

module _ {B : Type 0} where
  -- `sys_read`, with the ring as it is when the wait for input ends; `space` is `copy_to_user` of
  -- the caller's space, if it has one, on the memory `B`.
  unfoldable pub sys_read :
      Option (B → ℕ → List ℕ → Bool × B) → B → RxRing → ℕ → ℕ → ℕ → Reply × B × RxRing
  unfolding take_bytes bad_range
  sys_read space mem ring fd ptr len =
      let (buf, rest) = take_bytes len ring in
      if not (fd == 0)
      then (error ebadf, mem, ring)
      else if len == 0
      then (value 0, mem, ring)
      else if bad_range ptr len
      then (error efault, mem, ring)
      else elim space [
        | none ↦ (error efault, mem, rest)
        | some copy ↦
            let (done, mem') = copy mem ptr buf in
            if done then (value (length buf), mem', rest) else (error efault, mem', rest)
      ]

-- `sys_getppid`: 0 where there is no parent.
unfoldable pub sys_getppid : TaskInner → Reply
sys_getppid t = elim t.parent [ none ↦ value 0 | some parent ↦ value parent ]

-- `sys_sbrk`
unfoldable pub sys_sbrk :
    {W : Type 0} → (W → ℕ → ℕ → Bool × W) → Process W → Isize → Reply × Process W
unfolding adjust_brk
sys_sbrk push p delta =
    let (old, p') = adjust_brk push p delta in
    (elim old [ none ↦ error enomem | some brk ↦ value brk ], p')

grabbed : ℕ → Option ℕ → RxRing → List ℕ × RxRing
unfolding take_bytes
grabbed n o r = elim o [ none ↦ ([], r) | some b ↦ (b ∷ (take_bytes n r).0, (take_bytes n r).1) ]

take_bytes-suc : (n : ℕ) (r : RxRing) → take_bytes (suc n) r ≡ grabbed n (pop r).0 (pop r).1
unfolding take_bytes grabbed
take_bytes-suc n r = refl

-- The bytes that are taken are the oldest of the ring.
abbrev Taken : ℕ → List ℕ → List ℕ × RxRing → Type 0
Taken n xs (bytes, r) = IsValid r × (bytes ≡ take n xs) × (contents r ≡ drop n xs)

grabbed-Taken :
    (n : ℕ) (xs : List ℕ) (o : Option ℕ) (r : RxRing)
    → IsValid r
    → (o, contents r) ≡ queue_pop xs
    → Taken n (contents r) (take_bytes n r)
    → Taken (suc n) xs (grabbed n o r)
unfolding grabbed
grabbed-Taken n [] none r v e t = (v, refl, ap (λ (p : Option ℕ × List ℕ). p.1) e)
grabbed-Taken n [] (some b) r v e t =
    absurd (let bad : some b ≡ none = ap (λ (p : Option ℕ × List ℕ). p.0) e in cc)
grabbed-Taken n (x ∷ xs) none r v e t =
    absurd (let bad : none ≡ some x = ap (λ (p : Option ℕ × List ℕ). p.0) e in cc)
grabbed-Taken n (x ∷ xs) (some b) r v e t =
    let rest : contents r ≡ xs = ap (λ (p : Option ℕ × List ℕ). p.1) e in
    let head : some b ≡ some x = ap (λ (p : Option ℕ × List ℕ). p.0) e in
    let same : b ≡ x = cc in (t.0, rw (same, t.1, rest) refl, t.2 ∙ ap (drop n) rest)

take_bytes-Taken : (n : ℕ) (r : RxRing) → IsValid r → Taken n (contents r) (take_bytes n r)
take_bytes-Taken zero r v = unfold take_bytes in (v, refl, refl)
take_bytes-Taken (suc n) r v =
    let (v', e) = pop_refines r v in
    rw (take_bytes-suc n r)
      (grabbed-Taken n (contents r) (pop r).0 (pop r).1 v' e (take_bytes-Taken n (pop r).1 v'))

module _ {B : Type 0} where
  -- There is no space to copy to, or the copy failed and left `mem'`.
  abbrev pub CopyFailed : Option (B → ℕ → List ℕ → Bool × B) → B → ℕ → List ℕ → B → Type 0
  CopyFailed none mem ptr bytes mem' = mem' ≡ mem
  CopyFailed (some copy) mem ptr bytes mem' = copy mem ptr bytes ≡ (false, mem')

  -- What a read of `len` bytes may come to.
  abbrev pub Reads :
      Option (B → ℕ → List ℕ → Bool × B) → B → RxRing → ℕ → ℕ → ℕ → Reply × B × RxRing → Type 0
  Reads space mem ring fd ptr len (value n, mem', ring') =
      (fd ≡ 0)
      × (n ≡ min len (length (contents ring)))
      × (contents ring' ≡ drop len (contents ring))
      × (((len ≡ 0) × (mem' ≡ mem) × (ring' ≡ ring))
          ⊎ ((copy : B → ℕ → List ℕ → Bool × B) × (bad_range ptr len ≡ false)
              × (space ≡ some copy)
              × (copy mem ptr (take len (contents ring)) ≡ (true, mem'))))
  Reads space mem ring fd ptr len (error ebadf, mem', ring') =
      (fd ≢ 0) × (mem' ≡ mem) × (ring' ≡ ring)
  Reads space mem ring fd ptr len (error efault, mem', ring') =
      (fd ≡ 0)
      × (len ≢ 0)
      × (((bad_range ptr len ≡ true) × (mem' ≡ mem) × (ring' ≡ ring))
          ⊎ ((bad_range ptr len ≡ false)
              × (contents ring' ≡ drop len (contents ring))
              × CopyFailed space mem ptr (take len (contents ring)) mem'))
  Reads space mem ring fd ptr len (error _, mem', ring') = ⊥

  given : Option (B → ℕ → List ℕ → Bool × B) → B → ℕ → List ℕ × RxRing → Reply × B × RxRing
  given space mem ptr taken = elim space [
    | none ↦ (error efault, mem, taken.1)
    | some copy ↦
        if (copy mem ptr taken.0).0
        then (value (length taken.0), (copy mem ptr taken.0).1, taken.1)
        else (error efault, (copy mem ptr taken.0).1, taken.1)
  ]

  sys_read-given :
      (space : Option (B → ℕ → List ℕ → Bool × B)) (mem : B) (ring : RxRing) (fd ptr len : ℕ)
      → sys_read space mem ring fd ptr len ≡ (
          if not (fd == 0)
          then (error ebadf, mem, ring)
          else if len == 0
          then (value 0, mem, ring)
          else if bad_range ptr len
          then (error efault, mem, ring)
          else given space mem ptr (take_bytes len ring))
  unfolding sys_read given
  sys_read-given space mem ring fd ptr len = refl

  given-Reads :
      (space : Option (B → ℕ → List ℕ → Bool × B)) (mem : B) (ring : RxRing) (ptr len : ℕ)
      (taken : List ℕ × RxRing)
      → len ≢ 0
      → bad_range ptr len ≡ false
      → Taken len (contents ring) taken
      → Reads space mem ring 0 ptr len (given space mem ptr taken)
  unfolding given
  given-Reads none mem ring ptr len (bytes, rest) ne good t = (refl, ne, inr (good, t.2, refl))
  given-Reads (some copy) mem ring ptr len (bytes, rest) ne good t =
      elim (Bool-cases (copy mem ptr bytes).0) [
        | inl done ↦
            let put : copy mem ptr bytes ≡ (true, (copy mem ptr bytes).1) =
              ap (λ (b : Bool). (b, (copy mem ptr bytes).1)) done in
            rw done (
              refl,
              ap length t.1 ∙ length-take len (contents ring),
              t.2,
              inr (copy, good, refl, ap (copy mem ptr) (sym t.1) ∙ put),
            )
        | inr failed ↦
            let lost : copy mem ptr bytes ≡ (false, (copy mem ptr bytes).1) =
              ap (λ (b : Bool). (b, (copy mem ptr bytes).1)) failed in
            rw failed (refl, ne, inr (good, t.2, ap (copy mem ptr) (sym t.1) ∙ lost))
      ]

  -- A read from a valid ring: a descriptor other than 0 fails with `EBADF` and a bad range with
  -- `EFAULT`, both before anything is taken; `len` 0 changes nothing. Otherwise the range is good and
  -- the oldest bytes of the ring are taken, as many as there are up to `len`; they are copied to the
  -- buffer and the reply is their number, or the copy fails, the reply is `EFAULT` and they are lost.
  -- No other error occurs.
  pub sys_read-Reads :
      (space : Option (B → ℕ → List ℕ → Bool × B)) (mem : B) (ring : RxRing) (fd ptr len : ℕ)
      → IsValid ring
      → Reads space mem ring fd ptr len (sys_read space mem ring fd ptr len)
  sys_read-Reads space mem ring fd ptr len v = elim (Bool-cases (fd == 0)) [
    | inr other ↦
        let ne : fd ≢ 0 = ground arith in
        rw (sys_read-given space mem ring fd ptr len, other) (ne, refl, refl)
    | inl stdin ↦
        let at : fd ≡ 0 = ground arith in
        rw at (elim (Bool-cases (len == 0)) [
          | inl nothing ↦
              let zero_len : len ≡ 0 = ground arith in
              rw zero_len (
                rw (sys_read-given space mem ring 0 ptr 0)
                  (refl, omega arith, refl, inl (refl, refl, refl)))
          | inr some_len ↦ elim (Bool-cases (bad_range ptr len)) [
            | inl bad ↦
                rw (sys_read-given space mem ring 0 ptr len, some_len, bad)
                  (refl, ground arith, inl (bad, refl, refl))
            | inr good ↦
                rw (sys_read-given space mem ring 0 ptr len, some_len, good)
                  (given-Reads space mem ring ptr len (take_bytes len ring) (ground arith) good
                    (take_bytes-Taken len ring v))
          ]
        ])
  ]
