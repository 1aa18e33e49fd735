-- ===== src/Task/Stack/Tests.antt =====
-- A kernel stack out of a block of 1024 free frames.
use alexos.Base.{ℕ, List, [], ◌∷◌, refl, update, arith}
use alexos.Mm.Frame.{BuddyAllocator, empty, bits_below, push, set_free}
use alexos.Mm.Frame.Invariant.{Inv}
use alexos.Mm.Frame.Push.{push-Inv}
use alexos.Mm.Frame.Seed.{cover-none, blank-Inv}
use alexos.Mm.Frame.Owned.{Memory}
use alexos.Task.Stack.{new_stack}
use alexos.Task.Stack.Fresh.{Made, new_stack-Made}

abbrev no_blocks : ℕ → List ℕ
no_blocks _ = []

abbrev all_taken : BuddyAllocator
all_taken = record empty { base = 0x80400; frames = 1024; order_bit_base = bits_below 1024 }

memory : Memory
memory = record { frames = push all_taken 10 0; words = λ _. 1 }

memory-Inv : Inv (push all_taken 10 0) (update no_blocks 10 (0 ∷ []))
memory-Inv =
    push-Inv (blank-Inv all_taken (λ k. refl, λ i. refl, λ k. refl, omega arith)) 10 0
      (omega arith, refl, omega arith) (λ f l h. cover-none 11 f)

new_stack-Made_example : Made memory (update no_blocks 10 (0 ∷ [])) (new_stack memory)
unfolding memory
new_stack-Made_example =
    new_stack-Made memory (update no_blocks 10 (0 ∷ [])) memory-Inv
      (unfold push set_free in omega arith)
