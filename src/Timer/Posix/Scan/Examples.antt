-- ===== src/Timer/Posix/Scan/Examples.antt =====
-- A context of two slots, and the theorems on the slots of timer/posix/timer_posix.c at it.
use gabs.Base.{ℕ, ◌≡◌, refl, true, false, some, List, [], ◌∷◌, arith}
use gabs.Base.Run.{fault}
use gabs.Timer.Posix.Mask.{Word, no_bits}
use gabs.Timer.Posix.Scan.{Slot, worker_fill, timer_add}
use gabs.Timer.Posix.Scan.Fill.{worker_fill-overflows}
use gabs.Timer.Posix.Scan.Add.{Added, timer_add-Added}

abbrev scheduled : Word
scheduled = record { used = true; zombie = false; active = false; sched = true; alloc = true }

abbrev given_back : Word
given_back = record { used = true; zombie = true; active = false; sched = false; alloc = true }

abbrev slot : ℕ → Word → Slot
slot fd w = record { cb = some 1; user_arg = 2; fd = some fd; state = w }

abbrev one_due : List Slot
one_due = slot 5 scheduled ∷ slot 6 given_back ∷ []

abbrev both_due : List Slot
both_due = slot 5 scheduled ∷ slot 6 scheduled ∷ []

abbrev one_free : List Slot
one_free = slot 5 scheduled ∷ slot 6 no_bits ∷ []

worker_fill-overflows_example : worker_fill (some 3) both_due ≡ fault
worker_fill-overflows_example = worker_fill-overflows (some 3) both_due (refl, (refl, tt))

timer_add-Added_example :
    Added (some 9) true (some 4) 7 one_free (timer_add (some 9) true (some 4) 7 one_free)
timer_add-Added_example =
    timer_add-Added (some 9) true (some 4) 7 one_free (λ e. absurd (ground arith), (λ e. refl, tt))
