-- ===== src/User/Args/Read.antt =====
-- kernel/src/task/process.rs and user/src/lib.rs: a program reads the arguments that it was given.
use mathlib.Core.Path.{subst}
use alexos.Base.{
  ℕ, zero, suc, ◌+◌, ◌-◌, ◌*◌, ◌/◌, ◌^◌, ◌≤◌, ◌<◌, ◌≡◌, inl, inr, refl, sym, ap, ◌∙◌, false, Option,
  none, some, List, [], ◌∷◌, length, get_elem?, leb, Bool-cases, arith,
}
use alexos.Base.Words.{Run, ok, panic, >>=-ok, ok-injective, sub_word}
use alexos.Mm.Space.{read_bytes}
use alexos.Task.Process.{
  Pushed, Placed, to_le_bytes, place_args, store_args, store_pointers, push_args,
}
use alexos.Task.Process.Args.{IsLaidOut, room_for, place_args-IsLaidOut}
use alexos.Syscall.Exec.{from_le}
use alexos.User.Args.{new_args, pointer_at, get}
use alexos.User.Args.Memory.{
  Holds, NoZero, read_bytes-Holds, cstr_at-Holds, to_le_bytes-length, from_le-to_le_bytes,
}
use alexos.User.Args.Pushed.{
  IsMemory, Strings, Pointers, Strings-kept, inversion, store_args-Strings, store_pointers-Pointers,
}

pointer_lem :
    (m : ℕ → ℕ) (at : ℕ) (ps : List ℕ) (n p : ℕ)
    → Pointers m at ps
    → get_elem? ps n ≡ some p
    → p < 2 ^ 64
    → from_le (read_bytes m (at + n * 8) 8) ≡ p
pointer_lem m at [] n p h e l = absurd (let bad : none ≡ some p = e in cc)
pointer_lem m at (q ∷ ps) zero p h e l =
    let same : q ≡ p = let both : some q ≡ some p = e in cc in
    let start : at + 0 * 8 ≡ at = omega arith in
    let size = to_le_bytes-length 8 q in
    let bytes : read_bytes m at 8 ≡ to_le_bytes 8 q =
      ap (read_bytes m at) (sym size) ∙ read_bytes-Holds m at (to_le_bytes 8 q) h.0 in
    ap (λ a. from_le (read_bytes m a 8)) start
    ∙ ap from_le bytes
    ∙ from_le-to_le_bytes q (rw same l)
    ∙ same
pointer_lem m at (q ∷ ps) (suc n) p h e l =
    let next : at + suc n * 8 ≡ at + 8 + n * 8 = omega arith in
    ap (λ a. from_le (read_bytes m a 8)) next ∙ pointer_lem m (at + 8) ps n p h.1 e l

string_lem :
    (m : ℕ → ℕ) (top floor : ℕ) (args : List (List ℕ)) (ps : List ℕ) (n : ℕ) (a : List ℕ)
    → IsLaidOut top floor args ps
    → Strings m args ps
    → get_elem? args n ≡ some a
    → (p : ℕ) × (get_elem? ps n ≡ some p)
      × (p < top)
      × Holds m p a
      × (m (p + length a) ≡ 0)
      × (n < length ps)
string_lem m top floor [] ps n a laid h e = absurd (let bad : none ≡ some a = e in cc)
string_lem m top floor (b ∷ more) [] n a laid h e = absurd laid
string_lem m top floor (b ∷ more) (p ∷ ps) zero a laid h e =
    let same : b ≡ a = let both : some b ≡ some a = e in cc in
    (p, refl, omega (arith, laid.0), rw same at h.0, rw same at h.1, omega arith)
string_lem m top floor (b ∷ more) (q ∷ ps) (suc n) a laid h e =
    let (p, found, low, held, end, short) = string_lem m q floor more ps n a laid.2 h.2 e in
    (p, found, omega (arith, low, laid.0), held, end, omega (arith, short))

laid-length :
    (top floor : ℕ) (args : List (List ℕ)) (ps : List ℕ)
    → IsLaidOut top floor args ps
    → length ps ≡ length args
laid-length top floor [] [] l = refl
laid-length top floor [] (p ∷ ps) l = absurd l
laid-length top floor (a ∷ more) [] l = absurd l
laid-length top floor (a ∷ more) (p ∷ ps) l = ap suc (laid-length p floor more ps l.2)

sub_word-ok : (a b low : ℕ) → sub_word a b ≡ ok low → (b ≤ a) × (low ≡ a - b)
sub_word-ok a b low e = elim (Bool-cases (leb b a)) [
  | inl h ↦ let same : ok (a - b) ≡ ok low = rw h at e in (ground arith, sym (ok-injective same))
  | inr h ↦ absurd (let bad : ◌≡◌ {A = Run ℕ} panic (ok low) = rw h at e in cc)
]

module _ {W : Type 0} {store : W → ℕ → List ℕ → Option W} {byte : W → ℕ → ℕ}
    (mem : IsMemory store byte) (w : W) (top : ℕ) (args : List (List ℕ)) (small : top < 2 ^ 64)
    (fits : room_for args ≤ top) where
  -- What is in memory when `push_args` succeeds.
  Ready : Pushed → W → Type 0
  Ready r w' =
      (floor : ℕ) × (ps : List ℕ) × IsLaidOut top floor args ps
      × Strings (byte w') args ps
      × Pointers (byte w') r.argv ps
      × (r.argc ≡ length ps)

  push_args-Ready :
      (r : Pushed) (w' : W) → push_args store w top args ≡ ok (some (r, w')) → Ready r w'
  unfolding push_args Ready
  push_args-Ready r w' e =
      let (placed, at, laid₀) = place_args-IsLaidOut top args fits in
      let (p, place, e₁) = >>=-ok (place_args top args) _ e in
      let same : placed ≡ p = ok-injective (sym at ∙ place) in
      let laid : IsLaidOut top p.sp args p.pointers =
        subst (λ (x : Placed). IsLaidOut top x.sp args x.pointers) same laid₀ in
      let (low, sub, e₂) = >>=-ok (sub_word p.sp ((length p.pointers + 1) * 8)) _ e₁ in
      let (room, at_low) = sub_word-ok p.sp ((length p.pointers + 1) * 8) low sub in
      let argv = low / 16 * 16 in
      let pushed : Pushed = record { sp = argv; argc = length p.pointers; argv = argv } in
      let (w₁, s₁, k₁) =
        inversion (store_args store w args p.pointers)
          (λ x. elim (store_pointers store x argv p.pointers) [
            | none ↦ none
            | some y ↦ some (pushed, y)
          ])
          (r, w') (ok-injective e₂) in
      let (w₂, s₂, k₂) =
        inversion (store_pointers store w₁ argv p.pointers) (λ y. some (pushed, y)) (r, w') k₁ in
      let pair : ◌≡◌ {A = Pushed × W} (pushed, w₂) (r, w') = cc in
      let strings = (store_args-Strings mem w top p.sp args p.pointers w₁ laid s₁).0 in
      let (pointers, agree) = store_pointers-Pointers mem w₁ argv p.pointers w₂ s₂ in
      let kept =
        Strings-kept (byte w₁) (byte w₂) top p.sp args p.pointers
          (λ a l. agree a (inr (omega (arith, room, at_low)))) laid strings in
      subst (λ (x : Pushed × W). Ready x.0 x.1) pair (p.sp, p.pointers, laid, kept, pointers, refl)

  -- On a stack with room for the arguments, below the end of the address space: when `push_args`
  -- succeeds, the program that starts with its `argc` and `argv` finds as many arguments as it was
  -- given, and `get` of the place of an argument returns its bytes, when it has no zero among them
  -- and is shorter than the bytes that are looked through.
  pub push_args-get :
      (r : Pushed) (w' : W)
      → push_args store w top args ≡ ok (some (r, w'))
      → (fuel n : ℕ) (a : List ℕ) → get_elem? args n ≡ some a
      → length a < fuel
      → NoZero a
      → (r.argc ≡ length args) × (get fuel (byte w') (new_args r.argc r.argv) n ≡ some (some a))
  unfolding get pointer_at new_args Ready
  push_args-get r w' e fuel n a at short nz =
      let (floor, ps, laid, strings, pointers, count) = push_args-Ready r w' e in
      let same = laid-length top floor args ps laid in
      let (p, found, low, held, end, inside) =
        string_lem (byte w') top floor args ps n a laid strings at in
      let pointer = pointer_lem (byte w') r.argv ps n p pointers found (omega (arith, low)) in
      let read = cstr_at-Holds fuel (byte w') p a short nz held end in
      let in_range : leb r.argc n ≡ false = ground (arith, count, inside) in
      (count ∙ same, rw (in_range, pointer, read) refl)
