-- ===== src/Mm/Space/Strings.antt =====
-- kernel/src/mm/space.rs: the bounds of what `copy_from_user` and `read_cstr` give.
use alexos.Base.{
  ℕ, zero, suc, ◌+◌, ◌≤◌, ◌<◌, ◌≡◌, refl, sym, ◌∙◌, Bool, Option, none, some, List, [], ◌∷◌, ◌++◌,
  length, length-append, leb, ◌==◌, if◌then◌else◌, Bool-cases, arith, inl, inr,
}
use alexos.Base.Words.{word_mod}
use alexos.Mm.Addr.{user_max_addr}
use alexos.Mm.PageTable.{PageTable, Tables}
use alexos.Mm.Space.{copy_from_user, read_cstr_from, read_cstr}
use alexos.Mm.Space.Copy.{byte_at-none, read_each-none, copy_from_user-read_each}

module _ (t : Tables) (p : PageTable) (bytes : ℕ → ℕ) where
  -- What is copied starts below the user's limit.
  pub copy_from_user-lt :
      (a n : ℕ) (b : List ℕ) → copy_from_user t p bytes a (suc n) ≡ some b → a < user_max_addr
  copy_from_user-lt a n b e = elim (Bool-cases (leb user_max_addr a)) [
    | inr below ↦ ground arith
    | inl out ↦
        let lost = read_each-none t p bytes a n (byte_at-none t p bytes a (inl out)) in
        absurd (
          let bad : none ≡ some b =
            sym lost ∙ sym (copy_from_user-read_each t p bytes a (suc n)) ∙ e in
          cc)
  ]

  -- One more byte of a string, or its end.
  next_byte : (List ℕ → Bool) → List ℕ → (ℕ → Option (List ℕ)) → Option (List ℕ) → Option (List ℕ)
  next_byte utf8 got more o = elim o [
    | none ↦ none
    | some [] ↦ none
    | some (b ∷ _) ↦ if b == 0 then (if utf8 got then some got else none) else more b
  ]

  read_cstr_from-next :
      (utf8 : List ℕ → Bool) (a max : ℕ) (got : List ℕ)
      → read_cstr_from utf8 t p bytes a (suc max) got ≡ (
          if leb word_mod a
          then none
          else next_byte utf8 got
              (λ b. read_cstr_from utf8 t p bytes (a + 1) max (got ++ b ∷ []))
              (copy_from_user t p bytes a 1))
  unfolding read_cstr_from next_byte
  read_cstr_from-next utf8 a max got = refl

  next_byte-le :
      (utf8 : List ℕ → Bool) (got : List ℕ) (more : ℕ → Option (List ℕ)) (max : ℕ)
      → ((b : ℕ) (s : List ℕ) → more b ≡ some s → length s ≤ length got + suc max)
      → (o : Option (List ℕ)) (s : List ℕ) → next_byte utf8 got more o ≡ some s
      → length s ≤ length got + suc max
  unfolding next_byte
  next_byte-le utf8 got more max h none s e = cc
  next_byte-le utf8 got more max h (some []) s e = cc
  next_byte-le utf8 got more max h (some (b ∷ _)) s e = elim (Bool-cases (b == 0)) [
    | inr on ↦ h b s (rw on at e)
    | inl end ↦ elim (Bool-cases (utf8 got)) [
      | inl valid ↦
          let same : some got ≡ some s = rw (end, valid) at e in
          let eq : got ≡ s = cc in rw (← eq) (omega arith)
      | inr wrong ↦ absurd (let bad : none ≡ some s = rw (end, wrong) at e in cc)
    ]
  ]

  read_cstr_from-le :
      (utf8 : List ℕ → Bool) (max a : ℕ) (got s : List ℕ)
      → read_cstr_from utf8 t p bytes a max got ≡ some s
      → length s ≤ length got + max
  read_cstr_from-le utf8 zero a got s e =
      absurd (let bad : none ≡ some s = unfold read_cstr_from in e in cc)
  read_cstr_from-le utf8 (suc max) a got s e =
      let e' = sym (read_cstr_from-next utf8 a max got) ∙ e in
      elim (Bool-cases (leb word_mod a)) [
        | inl out ↦ absurd (let bad : none ≡ some s = rw out at e' in cc)
        | inr inside ↦
            next_byte-le utf8 got (λ b. read_cstr_from utf8 t p bytes (a + 1) max (got ++ b ∷ []))
              max
              (λ b r f.
                let ih = read_cstr_from-le utf8 max (a + 1) (got ++ b ∷ []) r f in
                omega (arith, ih, length-append got (b ∷ [])))
              (copy_from_user t p bytes a 1) s (rw inside at e')
      ]

  -- A string has at most as many bytes as were looked through.
  pub read_cstr-le :
      (utf8 : List ℕ → Bool) (a max : ℕ) (s : List ℕ)
      → read_cstr utf8 t p bytes a max ≡ some s
      → length s ≤ max
  unfolding read_cstr
  read_cstr-le utf8 a max s e = let l = read_cstr_from-le utf8 max a [] s e in omega (arith, l)
