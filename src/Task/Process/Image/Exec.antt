-- ===== src/Task/Process/Image/Exec.antt =====
-- kernel/src/task/process.rs: every outcome of `exec_current`.
use alexos.Base.{
  ℕ, suc, ◌+◌, ◌-◌, ◌*◌, ◌/◌, ◌%◌, ◌≤◌, ◌≡◌, ◌≢◌, ◌⊎◌, refl, ap, ◌∙◌, Bool, true, false, Option,
  none, some, List, [], ◌∷◌, length, leb, Bool-cases, inl, inr, arith, max,
}
use alexos.Base.Words.{Run, ok, panic, ok-injective}
use alexos.Task.Process.{
  user_stack_top, user_stack_size, user_heap_base, Placed, place_args, Pushed, push_args,
  store_args, store_pointers,
}
use alexos.Task.Process.Args.{room_for, place_args-IsLaidOut}
use alexos.Task.Process.Image.{
  Hart, UserTask, bad_image, out_of_memory, Execed, replaced, failed, start_frame, map_user_stack,
  build_stack, install, exec_loaded, exec_current,
}
use alexos.Loader.{Load, done, refused, panics, LoadedImage}
use alexos.Trap.{TrapFrame}
use alexos.Trap.Frame.{from_user, new_user_frame_lem}

-- The arguments take no more of the stack than their room.
place_args-room :
    (sp : ℕ) (args : List (List ℕ)) (r : Placed)
    → room_for args ≤ sp
    → place_args sp args ≡ ok r
    → (sp ≤ r.sp + room_for args) × (length r.pointers ≡ length args)
unfolding place_args room_for
place_args-room sp [] r h e =
    let same : record { sp = sp; pointers = [] } ≡ r = ok-injective e in
    rw (← same) (omega arith, refl)
place_args-room sp (a ∷ more) r h e =
    let low = sp - (length a + 1) in
    let (rest, placed, laid) = place_args-IsLaidOut (low / 8 * 8) more (omega arith) in
    let fits : leb (length a + 1) sp ≡ true = ground arith in
    let ih = place_args-room (low / 8 * 8) more rest (omega arith) placed in
    let same : record { sp = rest.sp; pointers = low / 8 * 8 ∷ rest.pointers } ≡ r =
      ok-injective (rw (fits, placed) at e) in
    rw (← same) (omega (arith, ih.0), ap suc ih.1)

-- What the arguments and the array of their pointers take.
abbrev pub stack_for : List (List ℕ) → ℕ
stack_for args = room_for args + (length args + 1) * 8

-- The arguments as `main` gets them: their number, and the array at the stack pointer, which the
-- ABI wants aligned.
abbrev pub Handed : {W : Type 0} → List (List ℕ) → Option (Pushed × W) → Type 0
Handed args none = Unit {0}
Handed args (some (p, w)) = (p.argc ≡ length args) × (p.argv ≡ p.sp) × (p.sp % 16 ≡ 0)

stored : {W : Type 0} → Option W → Pushed → Option (Pushed × W)
stored o p = elim o [ none ↦ none | some w ↦ some (p, w) ]

arrange : {W : Type 0} → Option W → Pushed → (W → Option W) → Option (Pushed × W)
unfolding stored
arrange o p store = elim o [ none ↦ none | some w ↦ stored (store w) p ]

stored-Handed :
    {W : Type 0} (args : List (List ℕ)) (o : Option W) (p : Pushed)
    → p.argc ≡ length args
    → p.argv ≡ p.sp
    → p.sp % 16 ≡ 0
    → Handed args (stored o p)
unfolding stored
stored-Handed args none p a b c = tt
stored-Handed args (some w) p a b c = (a, b, c)

arrange-Handed :
    {W : Type 0} (args : List (List ℕ)) (o : Option W) (p : Pushed) (store : W → Option W)
    → p.argc ≡ length args
    → p.argv ≡ p.sp
    → p.sp % 16 ≡ 0
    → Handed args (arrange o p store)
unfolding arrange
arrange-Handed args none p store a b c = tt
arrange-Handed args (some w) p store a b c = stored-Handed args (store w) p a b c

module _ {W : Type 0} (store : W → ℕ → List ℕ → Option W) where
  push_args-Handed :
      (w : W) (sp : ℕ) (args : List (List ℕ))
      → stack_for args ≤ sp
      → (r : Option (Pushed × W)) × (push_args store w sp args ≡ ok r) × Handed args r
  unfolding push_args arrange
  push_args-Handed w sp args h =
      let (placed, e, laid) = place_args-IsLaidOut sp args (omega arith) in
      let (above, count) = place_args-room sp args placed (omega arith) e in
      let fits : leb ((length placed.pointers + 1) * 8) placed.sp ≡ true = ground arith in
      let at = (placed.sp - (length placed.pointers + 1) * 8) / 16 * 16 in
      let p : Pushed = record { sp = at; argc = length placed.pointers; argv = at } in
      rw (e, fits)
        (
          arrange (store_args store w args placed.pointers) p
              (λ w₁. store_pointers store w₁ at placed.pointers),
          refl,
          arrange-Handed args (store_args store w args placed.pointers) p _ count refl
              (omega arith),
        )

module _ {W : Type 0} (load : List ℕ → Load (LoadedImage W)) (push : W → ℕ → ℕ → Bool × W)
    (store : W → ℕ → List ℕ → Option W) (duplicate : W → Option W) where
  -- How the new space `w` comes by its stack: the region below the top of the stack is mapped, and
  -- `push_args` puts the arguments there. It fails where one of the two does.
  abbrev pub Stacked : W → List (List ℕ) → Option (Pushed × W) → Type 0
  Stacked w args (some built) =
      (w₁ : W) × (push w (user_stack_top - user_stack_size) user_stack_top ≡ (true, w₁))
      × (push_args store w₁ user_stack_top args ≡ ok (some built))
  Stacked w args none =
      ((push w (user_stack_top - user_stack_size) user_stack_top).0 ≡ false)
      ⊎ ((w₁ : W) × (push w (user_stack_top - user_stack_size) user_stack_top ≡ (true, w₁))
          × (push_args store w₁ user_stack_top args ≡ ok none))

  pushed-Stacked :
      (w w₁ : W) (args : List (List ℕ))
      → push w (user_stack_top - user_stack_size) user_stack_top ≡ (true, w₁)
      → (r : Option (Pushed × W)) → push_args store w₁ user_stack_top args ≡ ok r
      → Stacked w args r
  pushed-Stacked w w₁ args mapped none e = inr (w₁, mapped, e)
  pushed-Stacked w w₁ args mapped (some built) e = (w₁, mapped, e)

  build_stack-Handed :
      (w : W) (args : List (List ℕ))
      → stack_for args ≤ user_stack_top
      → (r : Option (Pushed × W)) × (build_stack load push store duplicate w args ≡ ok r)
        × Handed args r
        × Stacked w args r
  unfolding build_stack map_user_stack
  build_stack-Handed w args h =
      let m = push w (user_stack_top - user_stack_size) user_stack_top in
      elim (Bool-cases m.0) [
        | inl mapped ↦
            let (r, e, handed) = push_args-Handed store m.1 user_stack_top args h in
            let whole : m ≡ (true, m.1) = ap (λ (b : Bool). (b, m.1)) mapped in
            (r, rw (mapped, build_stack) e, handed, pushed-Stacked w m.1 args whole r e)
        | inr full ↦ (none, rw (full, build_stack) refl, tt, inl full)
      ]

  -- What `exec_current` comes to for a task, an image and arguments.
  abbrev pub Execs :
      UserTask W → List ℕ → List ℕ → List (List ℕ) → Run (Execed × UserTask W) → Type 0
  Execs task name image args panic = ⊥
  Execs task name image args (ok (failed (bad_image e), t)) = (load image ≡ refused e) × (t ≡ task)
  Execs task name image args (ok (failed out_of_memory, t)) =
      (l : LoadedImage W) × (load image ≡ done l) × (t ≡ task) × Stacked l.space args none
  Execs task name image args (ok (replaced, t)) =
      (l : LoadedImage W) × (f : TrapFrame) × (p : Pushed) × (w : W) × (load image ≡ done l)
      × Stacked l.space args (some (p, w))
      × (t.space ≡ some w)
      × (t.pid ≡ task.pid)
      × (t.inner.parent ≡ task.inner.parent)
      × (t.inner.children ≡ task.inner.children)
      × (t.name ≡ name)
      × (t.inner.brk ≡ max l.brk user_heap_base)
      × (t.frame ≡ some f)
      × (from_user f ≡ true)
      × (f.sepc ≡ l.entry)
      × (f.x 10 ≡ length args)
      × (f.x 11 ≡ p.argv)
      × (f.x 2 ≡ p.sp)
      × (p.argv ≡ p.sp)
      × (p.sp % 16 ≡ 0)

  start_frame-facts :
      (h : Hart) (kernel_sp entry : ℕ) (p : Pushed)
      → let f = start_frame h kernel_sp entry p in
        (from_user f ≡ true)
        × (f.sepc ≡ entry)
        × (f.x 10 ≡ p.argc)
        × (f.x 11 ≡ p.argv)
        × (f.x 2 ≡ p.sp)
  unfolding start_frame from_user
  start_frame-facts h kernel_sp entry p =
      let l = new_user_frame_lem h.status entry p.sp kernel_sp h.kernel_satp in
      (l.0, refl, refl, refl, refl)

  install-Execs :
      (h : Hart) (task : UserTask W) (name image : List ℕ) (args : List (List ℕ))
      (l : LoadedImage W)
      → load image ≡ done l
      → (r : Option (Pushed × W)) → Handed args r
      → Stacked l.space args r
      → Execs task name image args (ok (install load push store duplicate h task name l r))
  unfolding install
  install-Execs h task name image args l e none handed built = (l, e, refl, built)
  install-Execs h task name image args l e (some (p, w)) handed built =
      let f = start_frame-facts h task.kernel_sp l.entry p in
      (
        l,
        start_frame h task.kernel_sp l.entry p,
        p,
        w,
        e,
        built,
        refl,
        refl,
        refl,
        refl,
        refl,
        refl,
        refl,
        f.0,
        f.1,
        f.2 ∙ handed.0,
        f.3,
        f.4,
        handed.1,
        handed.2,
      )

  exec_loaded-Execs :
      (h : Hart) (task : UserTask W) (name image : List ℕ) (args : List (List ℕ))
      → stack_for args ≤ user_stack_top
      → (r : Load (LoadedImage W)) → load image ≡ r
      → r ≢ panics
      → Execs task name image args (exec_loaded load push store duplicate h task name args r)
  unfolding exec_loaded
  exec_loaded-Execs h task name image args fits panics e safe = absurd (safe refl)
  exec_loaded-Execs h task name image args fits (refused x) e safe = (e, refl)
  exec_loaded-Execs h task name image args fits (done l) e safe =
      let (r, built, handed, stacked) = build_stack-Handed l.space args fits in
      rw built (install-Execs h task name image args l e r handed stacked)

  -- `exec_current`, for arguments that fit on the stack and an image on which the loader does not
  -- panic, comes to an end. It refuses the image exactly with the loader's error, and reports that
  -- memory has run out only where the stack could not be mapped or the arguments not be stored; both
  -- times the task is as it was, its old image included. Otherwise the task keeps its pid, its parent
  -- and its children, has the new name and the image's break, has the space of the image in which the
  -- stack was mapped and `push_args` stored the arguments, and starts in user mode at the image's
  -- entry with the number of arguments and their array, at the aligned stack pointer.
  pub exec_current-Execs :
      (h : Hart) (task : UserTask W) (name image : List ℕ) (args : List (List ℕ))
      → stack_for args ≤ user_stack_top
      → load image ≢ panics
      → Execs task name image args (exec_current load push store duplicate h task name image args)
  unfolding exec_current
  exec_current-Execs h task name image args fits safe =
      exec_loaded-Execs h task name image args fits (load image) refl safe
