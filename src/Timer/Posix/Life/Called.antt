-- ===== src/Timer/Posix/Life/Called.antt =====
-- What the worker of timer/posix/timer_posix.c does with a scheduled timer while the client makes no calls.
use gabs.Base.{◌≡◌, refl, sym, subst, ◌∙◌, true, false, if◌then◌else◌, arith}
use gabs.Timer.Posix.Mask.{no_bits, bit_or, bit_clear, bit_active, bit_sched}
use gabs.Timer.Posix.Life.{Worker, Holder, State, PrepareStep, AlarmStep}

-- However the steps go on, they come to a state with the predicate, and before that they never get
-- stuck.
pub data Must (R : State → State → Type 0) (P : State → Type 0) : State → Type 0 where
  now : {s : State} → P s → Must R P s
  later : {s : State} (s' : State) → R s s' → ((t : State) → R s t → Must R P t) → Must R P s

-- The only step of `prepare_pfds` from a state, by where the worker is.
prepare_next : Worker → State → State
prepare_next Worker.resting s = record s { worker = Worker.saw_used }
prepare_next Worker.saw_used s =
    if s.word.zombie
    then record s { word = no_bits; fd_open = false; worker = Worker.resting }
    else record s { worker = Worker.saw_live }
prepare_next Worker.saw_live s = record s {
  worker = if s.word.active then Worker.adopted else Worker.not_active;
}
prepare_next Worker.not_active s =
    if s.word.sched
    then record s { word = bit_or s.word bit_active; worker = Worker.adopted }
    else record s { worker = Worker.resting }
prepare_next _ s = record s { word = bit_clear s.word bit_sched; worker = Worker.resting }

PrepareStep-next : (s t : State) → PrepareStep s t → t ≡ prepare_next s.worker s
unfolding prepare_next
PrepareStep-next s t (PrepareStep.see_used p q) = rw p refl
PrepareStep-next s t (PrepareStep.cleanup p q) = rw (p, q) refl
PrepareStep-next s t (PrepareStep.see_live p q) = rw (p, q) refl
PrepareStep-next s t (PrepareStep.see_active p q) = rw (p, q) refl
PrepareStep-next s t (PrepareStep.see_inactive p q) = rw (p, q) refl
PrepareStep-next s t (PrepareStep.adopt p q) = rw (p, q) refl
PrepareStep-next s t (PrepareStep.pass_over p q) = rw (p, q) refl
PrepareStep-next s t (PrepareStep.clear_sched p) = rw p refl

-- The only step of `service_pfds` and `timer_alarm`.
alarm_next : Worker → State → State
alarm_next Worker.resting s = record s { worker = Worker.alarmed }
alarm_next Worker.alarmed s =
    if s.has_cb
    then record s { lock = Holder.by_worker; worker = Worker.holding }
    else record s { worker = Worker.fired }
alarm_next Worker.holding s = record s {
  worker = if s.word.active then Worker.calling else Worker.called;
}
alarm_next Worker.calling s = record s { worker = Worker.called }
alarm_next Worker.called s = record s { lock = Holder.free; worker = Worker.fired }
alarm_next _ s = record s { word = bit_clear s.word bit_active; worker = Worker.resting }

AlarmStep-next : (s t : State) → AlarmStep s t → t ≡ alarm_next s.worker s
unfolding alarm_next
AlarmStep-next s t (AlarmStep.find p q r) = rw p refl
AlarmStep-next s t (AlarmStep.no_callback p q) = rw (p, q) refl
AlarmStep-next s t (AlarmStep.lock_worker p q r) = rw (p, q) refl
AlarmStep-next s t (AlarmStep.call p q) = rw (p, q) refl
AlarmStep-next s t (AlarmStep.skip p q) = rw (p, q) refl
AlarmStep-next s t (AlarmStep.return p) = rw p refl
AlarmStep-next s t (AlarmStep.unlock_worker p) = rw p refl
AlarmStep-next s t (AlarmStep.clear_active p) = rw p refl

module _ {P : State → Type 0} {s s' : State} where
  by_prepare : PrepareStep s s' → Must PrepareStep P s' → Must PrepareStep P s
  by_prepare r m =
      Must.later s' r
        λ t q. subst (Must PrepareStep P) (PrepareStep-next s s' r ∙ sym (PrepareStep-next s t q)) m

  by_alarm : AlarmStep s s' → Must AlarmStep P s' → Must AlarmStep P s
  by_alarm r m =
      Must.later s' r
        λ t q. subst (Must AlarmStep P) (AlarmStep-next s s' r ∙ sym (AlarmStep-next s t q)) m

-- The callback of the timer runs, with the timer active and no longer scheduled.
abbrev pub Calling : State → Type 0
Calling s = (s.worker ≡ Worker.calling) × (s.word.active ≡ true) × (s.word.sched ≡ false)

-- The timer is polled, active and no longer scheduled, and once its descriptor is serviced the callback
-- has to be called.
abbrev pub Polled : State → Type 0
Polled s =
    (s.worker ≡ Worker.resting)
    × (s.word.active ≡ true)
    × (s.word.sched ≡ false)
    × Must AlarmStep Calling s

-- A timer that is in use and scheduled, with a callback, is called when its descriptor expires, as long as
-- the client makes no calls and no one holds the lock: the steps of `prepare_pfds` at its slot have to
-- come to their end, with the timer polled, active and no longer scheduled, and from there the steps of
-- `service_pfds` for its descriptor have to come to the call of the callback.
pub scheduled-called :
    (s : State)
    → s.worker ≡ Worker.resting
    → s.word.used ≡ true
    → s.word.zombie ≡ false
    → s.word.active ≡ false
    → s.word.sched ≡ true
    → s.has_cb ≡ true
    → s.lock ≡ Holder.free
    → Must PrepareStep Polled s
scheduled-called s w u z a b c l =
    let s3 = record s { worker = Worker.not_active } in
    let s4 = record s { word = bit_or s.word bit_active; worker = Worker.adopted } in
    let s5 = record s4 { word = bit_clear s4.word bit_sched; worker = Worker.resting } in
    let s6 = record s5 { worker = Worker.alarmed } in
    let s7 = record s6 { lock = Holder.by_worker; worker = Worker.holding } in
    let s8 = record s7 { worker = Worker.calling } in
    let active : s5.word.active ≡ true = ground arith in
    let unscheduled : s5.word.sched ≡ false = ground arith in
    let locks : AlarmStep s6 s7 = AlarmStep.lock_worker refl c l in
    let calls : AlarmStep s7 s8 = AlarmStep.call refl active in
    let adopts : PrepareStep s3 s4 = PrepareStep.adopt refl b in
    let clears : PrepareStep s4 s5 = PrepareStep.clear_sched refl in
    let called : Must AlarmStep Calling s5 =
      by_alarm (AlarmStep.find refl (ground arith) (ground arith))
        (by_alarm locks (by_alarm calls (Must.now (refl, active, unscheduled)))) in
    by_prepare (PrepareStep.see_used w u) (
      by_prepare (PrepareStep.see_live refl z) (
        by_prepare (PrepareStep.see_inactive refl a)
          (by_prepare adopts (by_prepare clears (Must.now (refl, active, unscheduled, called))))))
