-- ===== src/Timer/Posix/Round.antt =====
-- A round of the worker of POSIX timers (timer/posix/timer_posix.c: worker), with what `poll` answers as
-- a parameter. Nobody else writes the slots meanwhile, and a callback makes no calls on timers.
pub mod Turned
mod Examples
use gabs.Base.{ℕ, ◌||◌, Bool, true, false, Option, none, some, List, [], ◌∷◌, if◌then◌else◌}
use gabs.Base.Run.{Run, ok, fault, out_of_fuel}
use gabs.Timer.Posix.Scan.{Slot, Fd, worker_fill}
use gabs.Timer.Posix.Service.{Pollfd, service_pfds}

module _ {S : Type 0} (run : ℕ → ℕ → S → S) where
  -- what follows `poll`, which failed or wrote the events of the entries; `true` for another round
  pub after_poll : Option (List Pollfd) → List Slot × S → Run (List Slot × S) Bool
  after_poll none r = ok true r
  after_poll (some []) r = ok true r
  after_poll (some (p ∷ ps)) r =
      if p.readable || p.other then ok true r else ok true (service_pfds run (p ∷ ps) r)

  pub polled :
      (List Fd → Option (List Pollfd)) → S → Run (List Fd) (List Slot) → Run (List Slot × S) Bool
  unfolding after_poll
  polled poll s (ok ts pfds) = after_poll (poll pfds) (ts, s)
  polled poll s fault = fault
  polled poll s out_of_fuel = out_of_fuel

  -- a round of the loop of `worker`, given whether `work_state` is WORK_STATE_EXIT
  pub worker_round :
      Bool → Fd → (List Fd → Option (List Pollfd)) → List Slot × S → Run (List Slot × S) Bool
  unfolding polled
  worker_round exit eventfd poll (ts, s) =
      if exit then ok false (ts, s) else polled poll s (worker_fill eventfd ts)
