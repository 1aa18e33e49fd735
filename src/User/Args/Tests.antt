-- ===== src/User/Args/Tests.antt =====
-- The arguments of a program that was started with two of them.
use alexos.Base.{ℕ, ◌≡◌, refl, sym, ap, Option, none, some, List, [], ◌∷◌, update, length, arith}
use alexos.Mm.Space.{write_bytes}
use alexos.Task.Process.{to_le_bytes, place_args, store_args, store_pointers, push_args}
use alexos.Task.Process.Args.{room_for}
use alexos.User.Args.Pushed.{IsMemory}
use alexos.User.Args.Read.{push_args-get}
use alexos.User.Args.{new_args, get, next_arg}

-- Pointers to 64 and 80 at address 16, `a` at 64 and `bc` at 80.
abbrev memory : ℕ → ℕ
memory =
    let at = λ (m : ℕ → ℕ) (i b : ℕ). update m i b in
    at (at (at (at (at (λ _. 0) 16 64) 24 80) 64 b'a') 80 b'b') 81 b'c'

get_ok : get 8 memory (new_args 2 16) 1 ≡ some (some (b'b' ∷ b'c' ∷ []))
unfolding get new_args
get_ok = refl

get_outside : get 8 memory (new_args 2 16) 2 ≡ some none
unfolding get new_args
get_outside = refl

next_arg_ok :
    next_arg 8 memory (new_args 2 16)
    ≡ some (some (b'a' ∷ []), record { argc = 2; argv = 16; index = 1 })
unfolding next_arg new_args
next_arg_ok = refl

-- A user memory without limits.
abbrev store : (ℕ → ℕ) → ℕ → List ℕ → Option (ℕ → ℕ)
store m p bs = some (write_bytes m p bs)

store-IsMemory : IsMemory store (λ m. m)
store-IsMemory = record {
  stored = λ m p bs m' e a.
      let same : ◌≡◌ {A = ℕ → ℕ} (write_bytes m p bs) m' = cc in ap (λ f. f a) (sym same);
}

abbrev two : List (List ℕ)
two = (b'l' ∷ b's' ∷ []) ∷ (b'x' ∷ []) ∷ []

abbrev pushed : ℕ → ℕ
pushed =
    let strings =
      write_bytes
        (write_bytes (write_bytes (write_bytes (λ _. 0) 4088 (b'l' ∷ b's' ∷ [])) 4090 (0 ∷ [])) 4080
          (b'x' ∷ []))
        4081 (0 ∷ []) in
    write_bytes
      (write_bytes (write_bytes strings 4048 (to_le_bytes 8 4088)) 4056 (to_le_bytes 8 4080)) 4064
      (to_le_bytes 8 0)

push_args-get_example :
    (2 ≡ length two) × (get 9 pushed (new_args 2 4048) 1 ≡ some (some (b'x' ∷ [])))
push_args-get_example =
    push_args-get store-IsMemory (λ _. 0) 4096 two (omega arith) (unfold room_for in omega arith)
      (record { sp = 4048; argc = 2; argv = 4048 }) pushed
      (unfold push_args place_args store_args store_pointers in refl) 9 1 (b'x' ∷ []) refl
      (omega arith) (λ e. absurd (omega (arith, e)), tt)
