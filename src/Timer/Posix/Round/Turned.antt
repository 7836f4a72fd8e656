-- ===== src/Timer/Posix/Round/Turned.antt =====
-- Which timers a round of the worker (timer/posix/timer_posix.c) calls, and what becomes of the slots.
use gabs.Base.{
  ℕ, ◌≡◌, refl, sym, ap, ap₂, ◌∙◌, ◌<◌, ◌&&◌, ◌||◌, Bool, true, false, Option, none, some, List, [],
  ◌∷◌, length, map, if◌then◌else◌, arith, Bool-cases, inl, inr, ==-refl,
}
use gabs.Base.Run.{ok}
use gabs.Timer.Posix.Scan.{Slot, Fd, same_fd}
use gabs.Timer.Posix.Scan.Fill.{is_due, due_fds, prepared, worker_fill-Filled}
use gabs.Timer.Posix.Service.{Pollfd, service_pfds}
use gabs.Timer.Posix.Service.Served.{
  ready, is_valid, among, distinct, serve, serve_all, call, call_for, call_all, service_pfds-Served,
}
use gabs.Timer.Posix.Round.{after_poll, polled, worker_round}

-- An entry of the array with no event but POLLIN, which it has if the descriptor is `up`.
abbrev pub entry : (Fd → Bool) → Fd → Pollfd
entry up fd = record { fd = fd; readable = up fd; other = false }

-- The descriptors of the timers that are not given back.
abbrev pub valid_fds : List Slot → List Fd
valid_fds [] = []
valid_fds (t ∷ ts) = if is_valid t then t.fd ∷ valid_fds ts else valid_fds ts

same_fd_refl : (fd : Fd) → same_fd fd fd ≡ true
same_fd_refl none = refl
same_fd_refl (some n) = ==-refl n

module _ (up : Fd → Bool) where
  abbrev pub is_up : Slot → Bool
  is_up t = is_due t && up t.fd

  abbrev up_fds : List Slot → List Fd
  up_fds [] = []
  up_fds (t ∷ ts) = if is_up t then t.fd ∷ up_fds ts else up_fds ts

  -- A timer that fires is not active any more; any other slot is as it is prepared.
  abbrev pub turned : Slot → Slot
  turned t =
      if is_up t
      then record t { state = record t.state { active = false; sched = false } }
      else prepared t

  ready-due : (ts : List Slot) → ready (map (entry up) (due_fds ts)) ≡ up_fds ts
  ready-due [] = refl
  ready-due (t ∷ ts) = ground (arith, ready-due ts)

  among-up :
      (fd : Fd) (ts : List Slot) → among fd (valid_fds ts) ≡ false → among fd (up_fds ts) ≡ false
  among-up fd [] h = refl
  among-up fd (t ∷ ts) h = ground (arith, among-up fd ts)

  distinct-up : (ts : List Slot) → distinct (valid_fds ts) ≡ true → distinct (up_fds ts) ≡ true
  distinct-up [] h = refl
  distinct-up (t ∷ ts) h = ground (arith, distinct-up ts, among-up t.fd ts)

  -- A slot whose descriptor is not served stays in front.
  serve_all-other :
      (fds : List Fd) (t : Slot) (ts : List Slot)
      → is_valid t && among t.fd fds ≡ false
      → serve_all fds (t ∷ ts) ≡ t ∷ serve_all fds ts
  serve_all-other [] t ts h = refl
  serve_all-other (fd ∷ fds) t ts h =
      ap (serve_all fds) head ∙ serve_all-other fds t (serve fd ts) (ground arith)
    where
      head : serve fd (t ∷ ts) ≡ t ∷ serve fd ts
      head = ground arith

  serve_all-up :
      (ts : List Slot)
      → distinct (valid_fds ts) ≡ true
      → serve_all (up_fds ts) (map prepared ts) ≡ map turned ts
  serve_all-up [] h = refl
  serve_all-up (t ∷ ts) h = elim (Bool-cases (is_up t)) [
    | inl rises ↦
        let head : serve t.fd (prepared t ∷ map prepared ts) ≡ turned t ∷ map prepared ts =
          ground (arith, same_fd_refl t.fd) in
        let fds : up_fds (t ∷ ts) ≡ t.fd ∷ up_fds ts = rw rises refl in
        ap (λ l. serve_all l (map prepared (t ∷ ts))) fds
        ∙ ap (serve_all (up_fds ts)) head
        ∙ serve_all-other (up_fds ts) (turned t) (map prepared ts)
            (ground (arith, among-up t.fd ts))
        ∙ ap (λ us. turned t ∷ us) (serve_all-up ts (ground arith))
    | inr rests ↦
        let same : prepared t ≡ turned t = rw rests refl in
        let fds : up_fds (t ∷ ts) ≡ up_fds ts = rw rests refl in
        ap (λ l. serve_all l (map prepared (t ∷ ts))) fds
        ∙ serve_all-other (up_fds ts) (prepared t) (map prepared ts)
            (ground (arith, among-up t.fd ts))
        ∙ ap₂ ◌∷◌ same (serve_all-up ts (ground arith))
  ]

  module _ {S : Type 0} (run : ℕ → ℕ → S → S) where
    -- The callbacks of the timers that fire, in the order of the slots.
    abbrev pub called : List Slot → S → S
    called [] s = s
    called (t ∷ ts) s =
        called ts (if is_up t then elim t.cb [ none ↦ s | some cb ↦ run cb t.user_arg s ] else s)

    call_all-other :
        (fds : List Fd) (t : Slot) (ts : List Slot) (s : S)
        → is_valid t && among t.fd fds ≡ false
        → call_all run fds (t ∷ ts) s ≡ call_all run fds ts s
    call_all-other [] t ts s h = refl
    call_all-other (fd ∷ fds) t ts s h =
        ap (call_all run fds (t ∷ ts)) head
        ∙ call_all-other fds t ts (call_for run fd ts s) (ground arith)
      where
        head : call_for run fd (t ∷ ts) s ≡ call_for run fd ts s
        head = ground arith

    prepared-up :
        (t : Slot)
        → is_up t ≡ true
        → prepared t ≡ record t { state = record t.state { active = true; sched = false } }
    prepared-up t rises = ground arith

    call_for-up :
        (t : Slot) (ts : List Slot) (s : S)
        → is_up t ≡ true
        → call_for run t.fd (prepared t ∷ map prepared ts) s
          ≡ (if is_up t then elim t.cb [ none ↦ s | some cb ↦ run cb t.user_arg s ] else s)
    call_for-up t ts s rises =
        let found : is_valid (prepared t) && same_fd (prepared t).fd t.fd ≡ true =
          ground (arith, same_fd_refl t.fd) in
        ap (λ b. if b then call run (prepared t) s else call_for run t.fd (map prepared ts) s) found
        ∙ ap (λ u. call run u s) (prepared-up t rises)
        ∙ ap (λ b. if b then elim t.cb [ none ↦ s | some cb ↦ run cb t.user_arg s ] else s)
            (sym rises)

    call_all-up :
        (ts : List Slot) (s : S)
        → distinct (valid_fds ts) ≡ true
        → call_all run (up_fds ts) (map prepared ts) s ≡ called ts s
    call_all-up [] s h = refl
    call_all-up (t ∷ ts) s h = elim (Bool-cases (is_up t)) [
      | inl rises ↦
          let fds : up_fds (t ∷ ts) ≡ t.fd ∷ up_fds ts = rw rises refl in
          ap (λ l. call_all run l (map prepared (t ∷ ts)) s) fds
          ∙ ap (call_all run (up_fds ts) (prepared t ∷ map prepared ts)) (call_for-up t ts s rises)
          ∙ call_all-other (up_fds ts) (prepared t) (map prepared ts) _
              (ground (arith, among-up t.fd ts))
          ∙ call_all-up ts _ (ground arith)
      | inr rests ↦
          let fds : up_fds (t ∷ ts) ≡ up_fds ts = rw rests refl in
          let head : s
              ≡ (if is_up t then elim t.cb [ none ↦ s | some cb ↦ run cb t.user_arg s ] else s) =
            rw rests refl in
          ap (λ l. call_all run l (map prepared (t ∷ ts)) s) fds
          ∙ call_all-other (up_fds ts) (prepared t) (map prepared ts) s
              (ground (arith, among-up t.fd ts))
          ∙ call_all-up ts s (ground arith)
          ∙ ap (called ts) head
    ]

    service-up :
        (eventfd : Fd) (ts : List Slot) (s : S)
        → up eventfd ≡ false
        → distinct (valid_fds ts) ≡ true
        → service_pfds run (map (entry up) (eventfd ∷ due_fds ts)) (map prepared ts, s)
          ≡ (map turned ts, called ts s)
    service-up eventfd ts s quiet once =
        let fds : ready (map (entry up) (eventfd ∷ due_fds ts)) ≡ up_fds ts =
          rw quiet (ready-due ts) in
        service_pfds-Served run (map (entry up) (eventfd ∷ due_fds ts)) (map prepared ts) s
          (ap distinct fds ∙ distinct-up ts once)
        ∙ ap₂ (λ us (r : S). (us, r))
            (ap (λ l. serve_all l (map prepared ts)) fds ∙ serve_all-up ts once)
            (ap (λ l. call_all run l (map prepared ts) s) fds ∙ call_all-up ts s once)

    -- A round of a worker that is not told to exit, in which a timer of the context is not to be
    -- polled, no two valid timers have the same descriptor, and `poll` reports POLLIN for the
    -- descriptors that are up and nothing else: when the event is not up, each timer that is
    -- scheduled or active, and whose descriptor is up, is called in the order of the slots, if it
    -- has a callback, and then not active or scheduled any more, each other one that is scheduled
    -- becomes active, and the slots that were given back are cleared; when the event is up, the
    -- slots are only prepared, and no timer is called. A callback makes no calls on timers, and
    -- nobody else writes the slots meanwhile.
    pub worker_round-Turned :
        (eventfd : Fd) (poll : List Fd → Option (List Pollfd)) (ts : List Slot) (s : S)
        → length (due_fds ts) < length ts
        → distinct (valid_fds ts) ≡ true
        → poll (eventfd ∷ due_fds ts) ≡ some (map (entry up) (eventfd ∷ due_fds ts))
        → worker_round run false eventfd poll (ts, s)
          ≡ ok true (if up eventfd then (map prepared ts, s) else (map turned ts, called ts s))
    unfolding worker_round polled after_poll
    worker_round-Turned eventfd poll ts s some_idle once answers =
        rw (worker_fill-Filled eventfd ts some_idle, answers) by_event
      where
        serviced : List Slot × S
        serviced = service_pfds run (map (entry up) (eventfd ∷ due_fds ts)) (map prepared ts, s)

        by_event :
            after_poll run (some (map (entry up) (eventfd ∷ due_fds ts))) (map prepared ts, s)
            ≡ ok true (if up eventfd then (map prepared ts, s) else (map turned ts, called ts s))
        by_event = elim (Bool-cases (up eventfd)) [
          | inl event ↦ rw event refl
          | inr quiet ↦
              ap (λ b. if b || false then ok true (map prepared ts, s) else ok true serviced) quiet
              ∙ ap (ok true) (service-up eventfd ts s quiet once)
              ∙ ap (λ b. ok true (if b then (map prepared ts, s) else (map turned ts, called ts s)))
                  (sym quiet)
        ]
