-- ===== src/Timer/Posix/Client.antt =====
-- The calls of a client on a POSIX timer, one after the other (timer/posix/timer_posix.c:
-- gabs_timer_start to gabs_timer_active, gabs_timer_uninstall), over the calls of the system. The client
-- may be the callback of the timer. Nobody else writes the slot meanwhile.
pub mod Seen
pub mod Promise
mod Examples
use gabs.Base.{ℕ, Bool, true, false, not, List, if◌then◌else◌}
use gabs.Base.Run.{Cmd, pure, ok, fault, ◌>>=◌, ◌>>◌}
use gabs.Sync.{ℤ, pos, negsuc, negated, Sys, success, failed}
use gabs.Time.{Timespec, to_itimerspec}
use gabs.Timer.Posix.Mask.{
  Word, Attempt, Outcome, no_bits, bit_zombie, bit_sched, same_word, mask_set, mask_clear, mask_get,
}
use gabs.Timer.Posix.Mask.Alone.{alone}
use gabs.Timer.Posix.Life.{active_sched}
use gabs.Timer.Posix.Scan.{Slot, Fd}

-- The calls of the system: `timerfd_settime`, the write of 1 to the event, which tells whether all
-- of it was written and then leaves `errno` as it was, and the lock of the timer, of which the results
-- are ignored.
pub record Calls (K : Type 0) : Type 0 where
  pub settime : Fd → Timespec → K → Sys × K
  pub wake : K → Bool × K
  pub lock : K → K
  pub unlock : K → K

-- The slot, whether `firing` is this timer in the thread of the client, and the system.
pub record State (K : Type 0) : Type 0 where
  pub slot : Slot
  pub firing : Bool
  pub kernel : K

abbrev pub no_time : Timespec
no_time = record { tv_sec = 0; tv_nsec = 0 }

-- a status that is -1 becomes `-errno`
abbrev pub status_of : Sys → ℤ
status_of success = pos 0
status_of (failed e) = negated e

-- whether `mask_get` of the two bits is not 0
abbrev pub is_busy : Word → Bool
is_busy w = not (same_word (mask_get w active_sched) no_bits)

-- one call on the state word
abbrev pub on_word : {K : Type 0} → (List Attempt → Outcome) → Cmd (State K) (Unit {0})
on_word op s = ok tt (record s { slot = record s.slot { state = (alone op s.slot.state).0 } })

-- the call of `timerfd_settime`
abbrev pub set_time : {K : Type 0} → Calls K → Timespec → Cmd (State K) ℤ
set_time C spec s =
    let (r, k) = C.settime s.slot.fd spec s.kernel in ok (status_of r) (record s { kernel = k })

module _ {K : Type 0} (C : Calls K) where
  -- `trigger_reset`, with its assertion
  pub trigger_reset : Cmd (State K) (Unit {0})
  trigger_reset s =
      let (whole, k) = C.wake s.kernel in if whole then ok tt (record s { kernel = k }) else fault

  -- `timer_restart`
  pub timer_restart : ℕ → Cmd (State K) ℤ
  unfolding trigger_reset
  timer_restart delay_us = do
    on_word (mask_clear active_sched)
    status ← set_time C (to_itimerspec delay_us)
    on_word (mask_set bit_sched)
    trigger_reset
    pure status

  -- `gabs_timer_start`; EBUSY is 16
  pub start : ℕ → Cmd (State K) ℤ
  unfolding timer_restart
  start delay_us s = if is_busy s.slot.state then ok (negsuc 15) s else timer_restart delay_us s

  -- `gabs_timer_restart`
  pub restart : ℕ → Cmd (State K) ℤ
  unfolding timer_restart
  restart delay_us = timer_restart delay_us

  -- `gabs_timer_stop`
  pub stop : Cmd (State K) ℤ
  unfolding trigger_reset
  stop = do
    on_word (mask_clear active_sched)
    status ← set_time C no_time
    trigger_reset
    pure status

  -- `gabs_timer_active`
  pub active : Cmd (State K) Bool
  active s = ok (is_busy s.slot.state) s

  -- `timer_lock`
  pub timer_lock : Cmd (State K) (Unit {0})
  timer_lock s = if s.firing then ok tt s else ok tt (record s { kernel = C.lock s.kernel })

  -- `timer_unlock`
  pub timer_unlock : Cmd (State K) (Unit {0})
  timer_unlock s = if s.firing then ok tt s else ok tt (record s { kernel = C.unlock s.kernel })

  -- `gabs_timer_uninstall`
  pub uninstall : Cmd (State K) ℤ
  unfolding timer_lock stop timer_unlock
  uninstall = do timer_lock; stop; timer_unlock; on_word (mask_set bit_zombie); pure (pos 0)
