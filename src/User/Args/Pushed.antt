-- ===== src/User/Args/Pushed.antt =====
-- kernel/src/task/process.rs: what `push_args` leaves in memory.
use alexos.Base.{
  ℕ, ◌+◌, ◌*◌, ◌≤◌, ◌<◌, ◌≡◌, ◌⊎◌, inl, inr, refl, sym, ap, ◌∙◌, Option, none, some, List, [], ◌∷◌,
  length, arith,
}
use alexos.Mm.Space.{write_bytes}
use alexos.Task.Process.{to_le_bytes, store_args, store_pointers}
use alexos.Task.Process.Args.{IsLaidOut}
use alexos.User.Args.Memory.{
  Holds, Holds-agree, write_bytes-Holds, write_bytes-outside, to_le_bytes-length,
}

-- A user memory: a store that succeeds writes the bytes, and nothing else.
pub record IsMemory {W : Type 0} (store : W → ℕ → List ℕ → Option W) (byte : W → ℕ → ℕ)
    : Type 0 where
  pub stored :
      (w : W) (p : ℕ) (bs : List ℕ) (w' : W)
      → store w p bs ≡ some w'
      → (a : ℕ) → byte w' a ≡ write_bytes (byte w) p bs a

-- Each argument stands at its pointer, with a zero behind it.
abbrev pub Strings : (ℕ → ℕ) → List (List ℕ) → List ℕ → Type 0
Strings m [] [] = Unit
Strings m [] (p ∷ ps) = ⊥
Strings m (a ∷ more) [] = ⊥
Strings m (a ∷ more) (p ∷ ps) = Holds m p a × (m (p + length a) ≡ 0) × Strings m more ps

-- The pointers stand one after the other from `at` on.
abbrev pub Pointers : (ℕ → ℕ) → ℕ → List ℕ → Type 0
Pointers m at [] = Unit
Pointers m at (p ∷ ps) = Holds m at (to_le_bytes 8 p) × Pointers m (at + 8) ps

-- Two memories agree from `low` on.
abbrev pub Agree : (ℕ → ℕ) → (ℕ → ℕ) → ℕ → Type 0
Agree m m' low = (a : ℕ) → low ≤ a → m' a ≡ m a

pub floor_below : (t f : ℕ) (args : List (List ℕ)) (ps : List ℕ) → IsLaidOut t f args ps → f ≤ t
floor_below t f [] [] l = l
floor_below t f [] (p ∷ ps) l = absurd l
floor_below t f (a ∷ more) [] l = absurd l
floor_below t f (a ∷ more) (p ∷ ps) l =
    let rest = floor_below p f more ps l.2 in omega (arith, rest, l.0)

pub Strings-kept :
    (m m' : ℕ → ℕ) (top floor : ℕ) (args : List (List ℕ)) (ps : List ℕ)
    → Agree m m' floor
    → IsLaidOut top floor args ps
    → Strings m args ps
    → Strings m' args ps
Strings-kept m m' top floor [] [] same laid h = tt
Strings-kept m m' top floor [] (p ∷ ps) same laid h = h
Strings-kept m m' top floor (a ∷ more) [] same laid h = h
Strings-kept m m' top floor (a ∷ more) (p ∷ ps) same laid h =
    let above = floor_below p floor more ps laid.2 in
    (
      Holds-agree m m' p a (λ j l k. same j (omega (arith, above))) h.0,
      same (p + length a) (omega (arith, above)) ∙ h.1,
      Strings-kept m m' p floor more ps same laid.2 h.2,
    )

-- A sequence that succeeds, taken apart.
pub inversion :
    {V W : Type 0} (o : Option V) (f : V → Option W) (w' : W)
    → (elim o [ none ↦ none | some v ↦ f v ]) ≡ some w'
    → (v : V) × (o ≡ some v) × (f v ≡ some w')
inversion none f w' e = absurd (let bad : none ≡ some w' = e in cc)
inversion (some w) f w' e = (w, refl, e)

module _ {W : Type 0} {store : W → ℕ → List ℕ → Option W} {byte : W → ℕ → ℕ}
    (mem : IsMemory store byte) where
  -- After the copies, each argument stands in its place, and nothing from `top` on has changed.
  pub store_args-Strings :
      (w : W) (top floor : ℕ) (args : List (List ℕ)) (ps : List ℕ) (w' : W)
      → IsLaidOut top floor args ps
      → store_args store w args ps ≡ some w'
      → Strings (byte w') args ps × Agree (byte w) (byte w') top
  unfolding store_args
  store_args-Strings w top floor [] [] w' laid e =
      let same : w ≡ w' = let both : some w ≡ some w' = e in cc in
      (tt, λ a l. ap (λ x. byte x a) (sym same))
  store_args-Strings w top floor [] (p ∷ ps) w' laid e = absurd laid
  store_args-Strings w top floor (a ∷ more) [] w' laid e = absurd laid
  store_args-Strings w top floor (a ∷ more) (p ∷ ps) w' laid e =
      let (w₁, e₁, k₁) =
        inversion (store w p a)
          (λ x. elim (store x (p + length a) (0 ∷ [])) [
            | none ↦ none
            | some y ↦ store_args store y more ps
          ])
          w' e in
      let (w₂, e₂, k₂) =
        inversion (store w₁ (p + length a) (0 ∷ [])) (λ y. store_args store y more ps) w' k₁ in
      let (strings, agree) = store_args-Strings w₂ p floor more ps w' laid.2 k₂ in
      let one = mem.stored w p a w₁ e₁ in
      let two = mem.stored w₁ (p + length a) (0 ∷ []) w₂ e₂ in
      let copied =
        Holds-agree (write_bytes (byte w) p a) (byte w₁) p a (λ j l h. one j)
          (write_bytes-Holds (byte w) p a) in
      let passed = λ (j : ℕ) (out : (j < p + length a) ⊎ (p + length a + 1 ≤ j)).
        two j ∙ write_bytes-outside (byte w₁) (p + length a) (0 ∷ []) j out in
      let kept =
        Holds-agree (byte w₁) (byte w') p a (λ j l h. agree j l ∙ passed j (inl h)) copied in
      (
        (
          kept,
          agree (p + length a) (omega arith)
              ∙ two (p + length a)
              ∙ (write_bytes-Holds (byte w₁) (p + length a) (0 ∷ [])).0,
          strings,
        ),
        λ j l.
            agree j (omega (arith, laid.0))
            ∙ passed j (inr (omega (arith, laid.0)))
            ∙ one j
            ∙ write_bytes-outside (byte w) p a j (inr (omega (arith, laid.0))),
      )

  -- The array of pointers, and nothing from its end on has changed.
  pub store_pointers-Pointers :
      (w : W) (at : ℕ) (ps : List ℕ) (w' : W)
      → store_pointers store w at ps ≡ some w'
      → Pointers (byte w') at ps
        × ((a : ℕ) → (a < at) ⊎ (at + (length ps + 1) * 8 ≤ a) → byte w' a ≡ byte w a)
  unfolding store_pointers
  store_pointers-Pointers w at [] w' e =
      let size = to_le_bytes-length 8 0 in
      let null = mem.stored w at (to_le_bytes 8 0) w' e in
      (tt, λ a out. null a ∙ write_bytes-outside (byte w) at (to_le_bytes 8 0) a (rw size out))
  store_pointers-Pointers w at (p ∷ ps) w' e =
      let (w₁, e₁, k₁) =
        inversion (store w at (to_le_bytes 8 p)) (λ x. store_pointers store x (at + 8) ps) w' e in
      let (pointers, agree) = store_pointers-Pointers w₁ (at + 8) ps w' k₁ in
      let size = to_le_bytes-length 8 p in
      let one = mem.stored w at (to_le_bytes 8 p) w₁ e₁ in
      let copied =
        Holds-agree (write_bytes (byte w) at (to_le_bytes 8 p)) (byte w₁) at (to_le_bytes 8 p)
          (λ j l h. one j) (write_bytes-Holds (byte w) at (to_le_bytes 8 p)) in
      (
        (
          Holds-agree (byte w₁) (byte w') at (to_le_bytes 8 p)
              (λ j l h. agree j (inl (omega (arith, size)))) copied,
          pointers,
        ),
        λ j out. elim out [
          | inl below ↦
              agree j (inl (omega arith))
              ∙ one j
              ∙ write_bytes-outside (byte w) at (to_le_bytes 8 p) j (inl below)
          | inr above ↦
              agree j (inr (omega arith))
              ∙ one j
              ∙ write_bytes-outside (byte w) at (to_le_bytes 8 p) j (inr (omega (arith, size)))
        ],
      )
