-- ===== src/Timer/Posix/Life/Race.antt =====
-- A run of the worker of timer/posix/timer_posix.c with a scheduled timer, which the client restarts in
-- between.
use gabs.Base.{◌≡◌, ◌≢◌, refl, Bool, true, false, arith}
use gabs.Timer.Posix.Mask.{bit_or, bit_clear, bit_sched}
use gabs.Timer.Posix.Life.{
  Client, Worker, Holder, State, active_sched, RestartStep, PrepareStep, AlarmStep,
}

-- Steps of the worker one after the other, in whatever order of `prepare_pfds` and `service_pfds`.
pub data WorkerSteps (s : State) : State → Type 0 where
  stay : WorkerSteps s s
  prepare : {s' s'' : State} → WorkerSteps s s' → PrepareStep s' s'' → WorkerSteps s s''
  alarm : {s' s'' : State} → WorkerSteps s s' → AlarmStep s' s'' → WorkerSteps s s''

-- The worker neither polls the timer nor calls it.
abbrev pub passive : Worker → Bool
passive Worker.adopted = false
passive Worker.calling = false
passive _ = true

-- The timer is neither active nor scheduled, and the worker leaves it alone.
record Idle (s : State) : Type 0 where
  inactive : s.word.active ≡ false
  unscheduled : s.word.sched ≡ false
  left : passive s.worker ≡ true

moved :
    {s : State} (l : Holder) (w : Worker)
    → Idle s
    → passive w ≡ true
    → Idle (record s { lock = l; worker = w })
moved l w idle left = record {
  inactive = idle.inactive;
  unscheduled = idle.unscheduled;
  left = left;
}

PrepareStep-Idle : {s s' : State} → Idle s → PrepareStep s s' → Idle s'
PrepareStep-Idle {s} idle (PrepareStep.see_used p q) = moved s.lock Worker.saw_used idle refl
PrepareStep-Idle idle (PrepareStep.cleanup p q) = record {
  inactive = refl;
  unscheduled = refl;
  left = refl;
}
PrepareStep-Idle {s} idle (PrepareStep.see_live p q) = moved s.lock Worker.saw_live idle refl
PrepareStep-Idle idle (PrepareStep.see_active p q) = absurd (ground arith)
PrepareStep-Idle {s} idle (PrepareStep.see_inactive p q) = moved s.lock Worker.not_active idle refl
PrepareStep-Idle idle (PrepareStep.adopt p q) = absurd (ground arith)
PrepareStep-Idle {s} idle (PrepareStep.pass_over p q) = moved s.lock Worker.resting idle refl
PrepareStep-Idle idle (PrepareStep.clear_sched p) = absurd (ground arith)

AlarmStep-Idle : {s s' : State} → Idle s → AlarmStep s s' → Idle s'
AlarmStep-Idle {s} idle (AlarmStep.find p q r) = moved s.lock Worker.alarmed idle refl
AlarmStep-Idle {s} idle (AlarmStep.no_callback p q) = moved s.lock Worker.fired idle refl
AlarmStep-Idle idle (AlarmStep.lock_worker p q r) = moved Holder.by_worker Worker.holding idle refl
AlarmStep-Idle idle (AlarmStep.call p q) = absurd (ground arith)
AlarmStep-Idle {s} idle (AlarmStep.skip p q) = moved s.lock Worker.called idle refl
AlarmStep-Idle idle (AlarmStep.return p) = absurd (ground arith)
AlarmStep-Idle idle (AlarmStep.unlock_worker p) = moved Holder.free Worker.fired idle refl
AlarmStep-Idle idle (AlarmStep.clear_active p) = record {
  inactive = ground arith;
  unscheduled = ground arith;
  left = refl;
}

WorkerSteps-Idle : {s s' : State} → Idle s → WorkerSteps s s' → Idle s'
WorkerSteps-Idle idle WorkerSteps.stay = idle
WorkerSteps-Idle idle (WorkerSteps.prepare steps next) =
    PrepareStep-Idle (WorkerSteps-Idle idle steps) next
WorkerSteps-Idle idle (WorkerSteps.alarm steps next) =
    AlarmStep-Idle (WorkerSteps-Idle idle steps) next

-- When `prepare_pfds` has made a scheduled timer active, and before it clears the bit for scheduled,
-- a complete `timer_restart` of the client can take place, after which the timer is scheduled; the
-- worker then clears that bit, so that the timer, just restarted, is neither active nor scheduled.
-- Whatever the worker does from then on, while the client makes no calls, the timer stays so, and
-- the worker neither takes it up for `poll` nor calls it.
pub restart-lost :
    (s : State)
    → s.client ≡ Client.between
    → s.worker ≡ Worker.adopted
    → (s1 s2 s3 : State) × RestartStep s s1
      × RestartStep s1 s2
      × (s2.client ≡ Client.between)
      × (s2.word.sched ≡ true)
      × PrepareStep s2 s3
      × (s3.client ≡ Client.between)
      × (s3.worker ≡ Worker.resting)
      × ((s4 : State)
          → WorkerSteps s3 s4
          → (s4.word.active ≡ false)
            × (s4.word.sched ≡ false)
            × (s4.worker ≢ Worker.adopted)
            × (s4.worker ≢ Worker.calling))
restart-lost s c w =
    let s1 = record s { word = bit_clear s.word active_sched; client = Client.restarting } in
    let s2 = record s1 { word = bit_or s1.word bit_sched; client = Client.between } in
    let s3 = record s2 { word = bit_clear s2.word bit_sched; worker = Worker.resting } in
    (
      s1,
      s2,
      s3,
      RestartStep.clear c,
      RestartStep.schedule refl,
      refl,
      ground arith,
      PrepareStep.clear_sched w,
      refl,
      refl,
      λ s4 steps.
          let idle =
            WorkerSteps-Idle
              (record { inactive = ground arith; unscheduled = ground arith; left = refl }) steps in
          let left = idle.left in
          (idle.inactive, idle.unscheduled, λ e. ground arith, λ e. ground arith),
    )
