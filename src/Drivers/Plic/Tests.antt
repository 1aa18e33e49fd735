-- ===== src/Drivers/Plic/Tests.antt =====
-- A run of the interrupt handler over two sources, one of which has no handler.
use alexos.Base.{ℕ, ◌≡◌, refl, List, [], ◌∷◌, arith}
use alexos.Drivers.Uart.{RxRing}
use alexos.Drivers.Uart.Ring.{IsValid}
use alexos.Drivers.Plic.{init, notified, completed, handle_external_interrupt}
use alexos.Drivers.Plic.Serve.{Serves, handle_external_interrupt-Serves}

abbrev ring : RxRing
ring = record { buf = λ _. 0; head = 255; tail = 255 }

ring-IsValid : IsValid ring
ring-IsValid = record { head_in = omega arith; tail_in = omega arith }

abbrev claims : List (ℕ × List ℕ)
claims = (7, 65 ∷ []) ∷ (10, 66 ∷ []) ∷ []

effects_ok :
    (handle_external_interrupt ring [] claims).effects ≡ completed 7 ∷ notified ∷ completed 10 ∷ []
unfolding handle_external_interrupt
effects_ok = refl

init_ok : init (λ _. 0) 0 0x2080 ≡ 1024
unfolding init
init_ok = refl

handle_external_interrupt-Serves_example :
    Serves ring claims (handle_external_interrupt ring [] claims)
handle_external_interrupt-Serves_example =
    handle_external_interrupt-Serves ring [] claims ring-IsValid
