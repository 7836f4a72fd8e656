-- ===== src/Timer/Posix/Context.antt =====
-- The start and the end of a context of POSIX timers (timer/posix/timer_posix.c: gabs_timer_ctx_init,
-- gabs_timer_ctx_deinit), over the calls of the system. The end of a lock, which changes no slot, is left out.
pub mod Closed
mod Examples
use gabs.Base.{
  ℕ, zero, suc, ◌==◌, Bool, true, false, Option, none, some, List, [], ◌∷◌, map, if◌then◌else◌,
}
use gabs.Base.Run.{Cmd, pure, ok, fault, ◌>>=◌, ◌>>◌}
use gabs.Sync.{ℤ, pos, negated}
use gabs.Timer.Posix.Mask.{no_bits, bit_used, mask_test}
use gabs.Timer.Posix.Scan.{Slot, Fd, timer_cleanup}

-- What `eventfd` does: it returns a descriptor, or it fails with `errno`.
pub data Event : Type 0 where
  opens : ℕ → Event
  fails : ℕ → Event

-- The calls of the system. The write of the event tells whether all of it was written. The worker that
-- `join` waits for is in `poll`, from which it exits without another visit to the slots.
pub record Calls (K : Type 0) : Type 0 where
  pub eventfd : K → Event × K
  pub create : K → ℕ × K
  pub wake : Fd → K → Bool × K
  pub join : K → K
  pub close : ℕ → K → K

-- `struct gabs_timer_posix_ctx`, with the system; `exiting` for WORK_STATE_EXIT
pub record State (K : Type 0) : Type 0 where
  pub eventfd : Fd
  pub exiting : Bool
  pub timers : List Slot
  pub kernel : K

abbrev pub zeroed : Slot → Slot
zeroed t = record { cb = none; user_arg = 0; fd = some 0; state = no_bits }

module _ {K : Type 0} (C : Calls K) where
  -- the call of `close`, for a descriptor that is not negative
  pub close_fd : Fd → K → K
  close_fd none k = k
  close_fd (some fd) k = C.close fd k

  -- what follows `eventfd` in `gabs_timer_ctx_init`
  pub create_thread : Event → Cmd (State K) ℤ
  unfolding close_fd
  create_thread (Event.fails e) s = ok (negated e) (record s { eventfd = none })
  create_thread (Event.opens fd) s =
      let (status, k) = C.create s.kernel in
      if status == 0
      then ok (pos 0) (record s { eventfd = some fd; kernel = k })
      else ok (negated status) (record s { eventfd = some fd; kernel = close_fd (some fd) k })

  -- `gabs_timer_ctx_init`
  pub ctx_init : Cmd (State K) ℤ
  unfolding create_thread
  ctx_init s =
      let (event, k) = C.eventfd s.kernel in
      create_thread event (record s { timers = map zeroed s.timers; exiting = false; kernel = k })

  -- the loop of `gabs_timer_ctx_deinit`, with the calls of `timer_cleanup`
  pub cleanup_loop : List Slot → K → List Slot × K
  unfolding close_fd
  cleanup_loop [] k = ([], k)
  cleanup_loop (t ∷ ts) k =
      if mask_test t.state bit_used
      then (let (us, k') = cleanup_loop ts (close_fd t.fd k) in (timer_cleanup t ∷ us, k'))
      else (let (us, k') = cleanup_loop ts k in (t ∷ us, k'))

  -- what follows `trigger_reset` in `gabs_timer_ctx_deinit`
  pub finish : Cmd (State K) ℤ
  unfolding cleanup_loop close_fd
  finish s =
      let (ts, k) = cleanup_loop s.timers (close_fd s.eventfd (C.join s.kernel)) in
      ok (pos 0) (record s { timers = ts; kernel = k })

  -- `gabs_timer_ctx_deinit`, with the assertion of `trigger_reset`
  pub ctx_deinit : Cmd (State K) ℤ
  unfolding finish
  ctx_deinit s =
      let (whole, k) = C.wake s.eventfd s.kernel in
      if whole then finish (record s { exiting = true; kernel = k }) else fault
