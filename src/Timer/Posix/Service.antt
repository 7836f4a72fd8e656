-- ===== src/Timer/Posix/Service.antt =====
-- What the worker of POSIX timers does with the array after `poll` (timer/posix/timer_posix.c:
-- service_pfds, timer_alarm). Nobody else writes the slots meanwhile, the lock of a timer is free, and
-- a callback makes no calls on timers; the read of the expiration count is left out.
pub mod Served
mod Examples
use gabs.Base.{
  ℕ, zero, suc, ◌&&◌, ◌||◌, Bool, true, false, not, Option, none, some, List, [], ◌∷◌,
  if◌then◌else◌,
}
use gabs.Timer.Posix.Mask.{Word, bit_active, mask_clear, mask_test}
use gabs.Timer.Posix.Mask.Alone.{alone}
use gabs.Timer.Posix.Scan.{Slot, Fd, timer_from_fd, change}

-- `struct pollfd` after `poll`: whether POLLIN is in `revents`, and whether another event is
pub record Pollfd : Type 0 where
  pub fd : Fd
  pub readable : Bool
  pub other : Bool

module _ {S : Type 0} (run : ℕ → ℕ → S → S) where
  -- `timer_alarm`, given what a callback does with its argument to the state of the client
  pub timer_alarm : Slot → S → S
  timer_alarm t s = elim t.cb [
    | none ↦ s
    | some cb ↦ if mask_test t.state bit_active then run cb t.user_arg s else s
  ]

  -- `timer_alarm` of the slot at an index
  pub alarm_at : List Slot → ℕ → S → S
  unfolding timer_alarm
  alarm_at [] i s = s
  alarm_at (t ∷ ts) zero s = timer_alarm t s
  alarm_at (t ∷ ts) (suc i) s = alarm_at ts i s

  -- what follows `timer_from_fd` in the loop of `service_pfds`
  pub fire : Option ℕ → List Slot × S → List Slot × S
  unfolding alarm_at
  fire none (ts, s) = (ts, s)
  fire (some i) (ts, s) = (
    change ts i (λ t. record t { state = (alone (mask_clear bit_active) t.state).0 }),
    alarm_at ts i s,
  )

  -- one round of the loop of `service_pfds`
  pub service_one : Pollfd → List Slot × S → List Slot × S
  unfolding fire
  service_one pfd (ts, s) =
      if not (pfd.readable || pfd.other)
      then (ts, s)
      else if pfd.other
      then (ts, s)
      else fire (timer_from_fd ts pfd.fd) (ts, s)

  -- `service_pfds`
  pub service_pfds : List Pollfd → List Slot × S → List Slot × S
  unfolding service_one
  service_pfds [] r = r
  service_pfds (pfd ∷ pfds) r = service_pfds pfds (service_one pfd r)
