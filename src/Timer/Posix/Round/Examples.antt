-- ===== src/Timer/Posix/Round/Examples.antt =====
-- A round in which one of two timers that are due fires (timer/posix/timer_posix.c).
use gabs.Base.{ℕ, ◌≡◌, refl, true, false, Bool, some, none, Option, List, [], ◌∷◌, ◌==◌, map, arith}
use gabs.Base.Run.{ok}
use gabs.Timer.Posix.Mask.{Word, no_bits}
use gabs.Timer.Posix.Scan.{Slot, Fd}
use gabs.Timer.Posix.Service.{Pollfd}
use gabs.Timer.Posix.Round.{worker_round}
use gabs.Timer.Posix.Round.Turned.{entry, worker_round-Turned}

abbrev word : Bool → Bool → Bool → Word
word zombie active sched = record {
  used = true;
  zombie = zombie;
  active = active;
  sched = sched;
  alloc = true;
}

abbrev slot : ℕ → Word → Slot
slot fd w = record { cb = some 1; user_arg = fd; fd = some fd; state = w }

abbrev slots : List Slot
slots =
    slot 5 (word false false true)
    ∷ slot 6 (word true false false)
    ∷ slot 7 (word false false true)
    ∷ slot 8 (word false true false)
    ∷ []

abbrev is_up : Fd → Bool
is_up none = false
is_up (some fd) = fd == 5

abbrev poll : List Fd → Option (List Pollfd)
poll fds = some (map (entry is_up) fds)

-- a callback that notes its argument
abbrev note : ℕ → ℕ → List ℕ → List ℕ
note cb arg args = arg ∷ args

worker_round-Turned_example :
    worker_round note false (some 3) poll (slots, [])
    ≡ ok true (
      slot 5 (word false false false)
          ∷ record { cb = some 1; user_arg = 6; fd = some 6; state = no_bits }
          ∷ slot 7 (word false true false)
          ∷ slot 8 (word false true false)
          ∷ [],
      5 ∷ [],
    )
worker_round-Turned_example =
    worker_round-Turned is_up note (some 3) poll slots [] (omega arith) refl refl
