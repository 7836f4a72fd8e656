-- ===== src/Timer/Posix/Scan/Fill.antt =====
-- What `prepare_pfds` and the worker put into the array for `poll` (timer/posix/timer_posix.c).
use gabs.Base.{
  ℕ, suc, ◌+◌, ◌≤◌, ◌<◌, ◌≡◌, refl, ap, ◌&&◌, ◌||◌, Bool, true, false, not, List, [], ◌∷◌, ◌++◌,
  append_assoc, append-nil, length, length-append, map, ltb, lt→ltb, if◌then◌else◌, arith,
  Bool-cases, inl, inr,
}
use gabs.Base.Run.{ok, fault}
use gabs.Timer.Posix.Mask.{no_bits, bit_active, bit_sched, bit_or}
use gabs.Timer.Posix.Mask.Alone.{
  mask_test-used, mask_test-zombie, mask_test-active, mask_cas-alone, mask_clear-alone,
}
use gabs.Timer.Posix.Scan.{
  Slot, Fd, pfd_push, timer_cleanup, adopt, visit, prepare_pfds, worker_fill,
}

-- A timer that is to be polled: in use, not given back, and active or scheduled.
abbrev pub is_due : Slot → Bool
is_due t = t.state.used && (not t.state.zombie && (t.state.active || t.state.sched))

-- Its descriptor, if it is.
abbrev pub due_fds : List Slot → List Fd
due_fds [] = []
due_fds (t ∷ ts) = if is_due t then t.fd ∷ due_fds ts else due_fds ts

-- A slot that was given back is cleared, a timer to be polled is active and no longer scheduled, and
-- any other slot is as it was.
abbrev pub prepared : Slot → Slot
prepared t =
    if t.state.used && t.state.zombie
    then record t { state = no_bits }
    else if is_due t
    then record t { state = record t.state { active = true; sched = false } }
    else t

visit_lem : (t : Slot) → visit t ≡ (prepared t, is_due t)
unfolding visit adopt timer_cleanup
visit_lem t = ground (
  arith,
  mask_test-used t.state,
  mask_test-zombie t.state,
  mask_test-active t.state,
  mask_cas-alone t.state,
  mask_clear-alone bit_sched t.state,
  mask_clear-alone bit_sched (bit_or t.state bit_active),
)

module _ (room : ℕ) where
  pfd_push-room :
      (fd : Fd) (pfds : List Fd)
      → length pfds < room
      → pfd_push room fd pfds ≡ ok tt (pfds ++ fd ∷ [])
  unfolding pfd_push
  pfd_push-room fd pfds h = rw (lt→ltb (length pfds) room h)

  pfd_push-full : (fd : Fd) (pfds : List Fd) → room ≤ length pfds → pfd_push room fd pfds ≡ fault
  unfolding pfd_push
  pfd_push-full fd pfds h = let full : ltb (length pfds) room ≡ false = ground arith in rw full

  -- Where there is room for them, `prepare_pfds` pushes the descriptors of the timers to be polled, in
  -- the order of their slots, and prepares every slot.
  pub prepare_pfds-Prepared :
      (ts : List Slot) (pfds : List Fd)
      → length pfds + length (due_fds ts) ≤ room
      → prepare_pfds room ts pfds ≡ ok (map prepared ts) (pfds ++ due_fds ts)
  unfolding prepare_pfds
  prepare_pfds-Prepared [] pfds fits = rw (append-nil pfds)
  prepare_pfds-Prepared (t ∷ ts) pfds fits = elim (Bool-cases (is_due t)) [
    | inl due ↦
        let fits' : length pfds + length (t.fd ∷ due_fds ts) ≤ room = rw due at fits in
        rw
          (
            visit_lem t,
            due,
            pfd_push-room t.fd pfds (omega arith),
            prepare_pfds-Prepared ts (pfds ++ t.fd ∷ [])
                (omega (arith, length-append pfds (t.fd ∷ []))),
            append_assoc pfds (t.fd ∷ []) (due_fds ts),
          )
          refl
    | inr not_due ↦
        rw (visit_lem t, not_due, prepare_pfds-Prepared ts pfds (rw not_due at fits)) refl
  ]

  prepare_pfds-fault :
      (ts : List Slot) (pfds : List Fd)
      → length pfds ≤ room
      → room < length pfds + length (due_fds ts)
      → prepare_pfds room ts pfds ≡ fault
  unfolding prepare_pfds
  prepare_pfds-fault [] pfds within over = absurd (omega arith)
  prepare_pfds-fault (t ∷ ts) pfds within over = elim (Bool-cases (is_due t)) [
    | inl due ↦ elim (Bool-cases (ltb (length pfds) room)) [
      | inl less ↦
          let over' : room < length pfds + length (t.fd ∷ due_fds ts) = rw due at over in
          rw
            (
              visit_lem t,
              due,
              pfd_push-room t.fd pfds (ground arith),
              prepare_pfds-fault ts (pfds ++ t.fd ∷ [])
                  (ground (arith, length-append pfds (t.fd ∷ [])))
                  (omega (arith, length-append pfds (t.fd ∷ []))),
            )
            refl
      | inr full ↦ rw (visit_lem t, due, pfd_push-full t.fd pfds (ground arith)) refl
    ]
    | inr not_due ↦
        rw (visit_lem t, not_due, prepare_pfds-fault ts pfds within (rw not_due at over)) refl
  ]

-- When a timer of the context is not to be polled, the array of the worker has room: it then holds the
-- descriptor of the event and those of the timers to be polled, in the order of their slots, and these
-- are active and no longer scheduled; the slots that were given back are cleared, and all others are
-- as they were.
pub worker_fill-Filled :
    (eventfd : Fd) (ts : List Slot)
    → length (due_fds ts) < length ts
    → worker_fill eventfd ts ≡ ok (map prepared ts) (eventfd ∷ due_fds ts)
unfolding worker_fill
worker_fill-Filled eventfd ts some_idle =
    rw
      (
        pfd_push-room (length ts) eventfd [] (omega arith),
        prepare_pfds-Prepared (length ts) ts (eventfd ∷ []) (omega arith),
      )
      refl

abbrev pub AllDue : List Slot → Type 0
AllDue [] = Unit {0}
AllDue (t ∷ ts) = (is_due t ≡ true) × AllDue ts

length-due_fds : (ts : List Slot) → AllDue ts → length (due_fds ts) ≡ length ts
length-due_fds [] all = refl
length-due_fds (t ∷ ts) (due, all) = rw due (ap suc (length-due_fds ts all))

-- When every timer of the context is to be polled, the worker writes behind the end of its array,
-- which has one entry for each timer and none for the descriptor of the event.
pub worker_fill-overflows :
    (eventfd : Fd) (ts : List Slot) → AllDue ts → worker_fill eventfd ts ≡ fault
unfolding worker_fill
worker_fill-overflows eventfd [] all = refl
worker_fill-overflows eventfd (t ∷ ts) all =
    let every = length-due_fds (t ∷ ts) all in
    rw
      (
        pfd_push-room (length (t ∷ ts)) eventfd [] (omega arith),
        prepare_pfds-fault (length (t ∷ ts)) (t ∷ ts) (eventfd ∷ []) (omega arith)
            (omega (arith, every)),
      )
      refl
