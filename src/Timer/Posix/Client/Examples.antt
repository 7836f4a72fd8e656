-- ===== src/Timer/Posix/Client/Examples.antt =====
-- A timer that its callback schedules anew, and the theorem on the calls of a client
-- (timer/posix/timer_posix.c) at it.
use gabs.Base.{◌≡◌, refl, suc, true, false, some, none, List, [], ◌∷◌}
use gabs.Base.Run.{Ends}
use gabs.Sync.{pos, negsuc, Sys}
use gabs.Timer.Posix.Mask.{Word}
use gabs.Timer.Posix.Scan.{Slot}
use gabs.Timer.Posix.Client.{Calls, State, no_time}
use gabs.Timer.Posix.Client.Seen.{View, Documented}
use gabs.Timer.Posix.Client.Promise.{Op, Due, Stands, exec_all, exec_all-Promised}

-- A system that is what is seen of it.
abbrev plain : Calls View
plain = record {
  settime = λ fd spec v. (Sys.success, record v { armed = spec });
  wake = λ v. (true, record v { woken = suc v.woken });
  lock = λ v. record v { held = true };
  unlock = λ v. record v { held = false };
}

plain-Documented : Documented plain (some 5)
plain-Documented = record {
  view = λ v. v;
  settime_lem = λ k spec small. (refl, refl);
  wake_lem = λ k. (refl, refl);
  lock_lem = λ k free. refl;
  unlock_lem = λ k taken. refl;
}

abbrev idle : Word
idle = record { used = true; zombie = false; active = false; sched = false; alloc = true }

abbrev slot : Slot
slot = record { cb = some 1; user_arg = 2; fd = some 5; state = idle }

abbrev in_callback : State View
in_callback = record {
  slot = slot;
  firing = true;
  kernel = record { armed = no_time; woken = 3; held = true };
}

abbrev calls_made : List Op
calls_made =
    Op.starts 100
    ∷ Op.starts 200
    ∷ Op.asks
    ∷ Op.restarts 300
    ∷ Op.stops
    ∷ Op.asks
    ∷ Op.uninstalls
    ∷ []

abbrev not_due : Due
not_due = record { delay = none; wakes = 3; gone = false }

exec_all-Promised_example :
    Ends
      (λ rs s'.
        (rs ≡ pos 0 ∷ negsuc 15 ∷ pos 1 ∷ pos 0 ∷ pos 0 ∷ pos 0 ∷ pos 0 ∷ [])
        × Stands plain
            (some 5)
            plain-Documented
            (record { delay = none; wakes = 7; gone = true })
            true
            s')
      (exec_all plain (some 5) plain-Documented calls_made in_callback)
unfolding plain-Documented
exec_all-Promised_example =
    exec_all-Promised plain (some 5) plain-Documented calls_made {due = not_due} {f = true}
      in_callback
      (record { is_open = refl; inside = refl; busy = refl; zombie = refl; view = refl })
