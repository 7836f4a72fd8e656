-- ===== src/Timer/Posix/Life/Examples.antt =====
-- A client and the worker of timer/posix/timer_posix.c at concrete states.
use gabs.Base.{◌≡◌, ◌≢◌, refl, true, false}
use gabs.Timer.Posix.Mask.{no_bits}
use gabs.Timer.Posix.Life.{
  Client, Worker, Holder, State, Step, AddStep, RestartStep, PrepareStep, Reach,
}
use gabs.Timer.Posix.Life.Safety.{installed, gone, Reach-installed}
use gabs.Timer.Posix.Life.Race.{WorkerSteps, restart-lost}
use gabs.Timer.Posix.Life.Called.{Must, Polled, scheduled-called}

-- A timer that is installed and has been started.
abbrev started : State
started = record {
  word = record no_bits { used = true; alloc = true; sched = true };
  has_cb = true;
  fd_open = true;
  lock = Holder.free;
  client = Client.between;
  worker = Worker.resting;
}

started-Reach : Reach started
started-Reach =
    Reach.step
      (Reach.step
        (Reach.step
          (Reach.step (Reach.step Reach.begin (Step.adds (AddStep.take_slot refl refl)))
            (Step.adds (AddStep.create true refl)))
          (Step.adds (AddStep.publish refl)))
        (Step.restarts (RestartStep.clear refl)))
      (Step.restarts (RestartStep.schedule refl))

-- The worker has just made it active.
abbrev in_prepare : State
in_prepare = record started {
  word = record no_bits { used = true; alloc = true; sched = true; active = true };
  worker = Worker.adopted;
}

in_prepare-Reach : Reach in_prepare
in_prepare-Reach =
    Reach.step
      (Reach.step
        (Reach.step (Reach.step started-Reach (Step.prepares (PrepareStep.see_used refl refl)))
          (Step.prepares (PrepareStep.see_live refl refl)))
        (Step.prepares (PrepareStep.see_inactive refl refl)))
      (Step.prepares (PrepareStep.adopt refl refl))

-- Then the client has uninstalled it.
abbrev uninstalled : State
uninstalled = record in_prepare {
  word = record no_bits { used = true; alloc = true; zombie = true };
  client = Client.done;
}

Reach-installed_example :
    (installed in_prepare.client ≡ true
      → (in_prepare.fd_open ≡ true)
        × (in_prepare.word.used ≡ true)
        × (in_prepare.word.zombie ≡ false))
    × (in_prepare.word.zombie ≡ true → gone in_prepare.client ≡ true)
Reach-installed_example = Reach-installed in_prepare in_prepare-Reach

restart-lost_example :
    (s1 s2 s3 : State) × RestartStep in_prepare s1
    × RestartStep s1 s2
    × (s2.client ≡ Client.between)
    × (s2.word.sched ≡ true)
    × PrepareStep s2 s3
    × (s3.client ≡ Client.between)
    × (s3.worker ≡ Worker.resting)
    × ((s4 : State)
        → WorkerSteps s3 s4
        → (s4.word.active ≡ false)
          × (s4.word.sched ≡ false)
          × (s4.worker ≢ Worker.adopted)
          × (s4.worker ≢ Worker.calling))
restart-lost_example = restart-lost in_prepare refl refl

scheduled-called_example : Must PrepareStep Polled started
scheduled-called_example = scheduled-called started refl refl refl refl refl refl refl
