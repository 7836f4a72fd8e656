-- ===== src/Timer/Posix/Service/Examples.antt =====
-- A context of two slots of timer/posix/timer_posix.c, both of whose descriptors are ready.
use gabs.Base.{ℕ, ◌≡◌, refl, true, false, some, List, [], ◌∷◌}
use gabs.Timer.Posix.Mask.{Word}
use gabs.Timer.Posix.Scan.{Slot}
use gabs.Timer.Posix.Service.{Pollfd, service_pfds}
use gabs.Timer.Posix.Service.Served.{service_pfds-Served}

abbrev running : Word
running = record { used = true; zombie = false; active = true; sched = false; alloc = true }

abbrev stopped : Word
stopped = record { used = true; zombie = false; active = false; sched = false; alloc = true }

abbrev slot : ℕ → ℕ → Word → Slot
slot arg fd w = record { cb = some 1; user_arg = arg; fd = some fd; state = w }

abbrev slots : List Slot
slots = slot 7 5 running ∷ slot 8 6 stopped ∷ slot 9 4 running ∷ []

abbrev entry : ℕ → Pollfd
entry fd = record { fd = some fd; readable = true; other = false }

abbrev failed : ℕ → Pollfd
failed fd = record { fd = some fd; readable = true; other = true }

abbrev pfds : List Pollfd
pfds = entry 6 ∷ entry 4 ∷ failed 5 ∷ entry 3 ∷ []

-- a callback that appends its argument to a list
abbrev log : ℕ → ℕ → List ℕ → List ℕ
log cb arg args = arg ∷ args

service_pfds-Served_example :
    service_pfds log pfds (slots, [])
    ≡ (slot 7 5 running ∷ slot 8 6 stopped ∷ slot 9 4 stopped ∷ [], 9 ∷ [])
service_pfds-Served_example = service_pfds-Served log pfds slots [] refl
