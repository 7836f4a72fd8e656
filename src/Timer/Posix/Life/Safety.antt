-- ===== src/Timer/Posix/Life/Safety.antt =====
-- What holds of a POSIX timer whatever the interleaving of client and worker
-- (timer/posix/timer_posix.c).
use gabs.Base.{◌≡◌, ◌≢◌, Bool, true, false, arith}
use gabs.Timer.Posix.Life.{
  Client, Worker, Holder, State, Step, AddStep, RestartStep, StopStep, UninstallStep, PrepareStep,
  AlarmStep, Reach,
}

-- The client has cancelled the timer in `gabs_timer_uninstall`.
abbrev pub cancelled : Client → Bool
cancelled Client.stopped = true
cancelled Client.unlocked = true
cancelled Client.done = true
cancelled _ = false

-- The timer is installed, and the client may call it.
abbrev pub installed : Client → Bool
installed Client.between = true
installed Client.restarting = true
installed Client.locked = true
installed Client.stopped = true
installed Client.unlocked = true
installed _ = false

-- The client is done with the timer.
abbrev pub gone : Client → Bool
gone Client.done = true
gone Client.outside = true
gone _ = false

abbrev holds_lock : Client → Bool
holds_lock Client.locked = true
holds_lock Client.stopped = true
holds_lock _ = false

abbrev in_alarm : Worker → Bool
in_alarm Worker.holding = true
in_alarm Worker.calling = true
in_alarm Worker.called = true
in_alarm _ = false

record Inv (s : State) : Type 0 where
  silent :
      cancelled s.client ≡ true
      → (s.word.active ≡ false) × (s.word.sched ≡ false) × (s.worker ≢ Worker.calling)
  worker_lock : in_alarm s.worker ≡ true → s.lock ≡ Holder.by_worker
  client_lock : holds_lock s.client ≡ true → s.lock ≡ Holder.by_client
  buried : s.word.zombie ≡ true → (gone s.client ≡ true) × (s.word.alloc ≡ true)
  present :
      installed s.client ≡ true → (s.fd_open ≡ true) × (s.word.used ≡ true) × (s.word.alloc ≡ true)
  opened : s.client ≡ Client.created → (s.fd_open ≡ true) × (s.word.alloc ≡ true)
  taken : s.client ≡ Client.installing → s.word.alloc ≡ true

Step-Inv : (s s' : State) → Inv s → Step s s' → Inv s'
Step-Inv s s' inv (Step.adds (AddStep.take_slot p q)) = record {
  silent = ground arith;
  worker_lock = ground arith;
  client_lock = ground arith;
  buried = ground arith;
  present = ground arith;
  opened = ground arith;
  taken = ground arith;
}
Step-Inv s s' inv (Step.adds (AddStep.create cb p)) = record {
  silent = ground arith;
  worker_lock = ground arith;
  client_lock = ground arith;
  buried = ground arith;
  present = ground arith;
  opened = ground arith;
  taken = ground arith;
}
Step-Inv s s' inv (Step.adds (AddStep.fail_create p)) = record {
  silent = ground arith;
  worker_lock = ground arith;
  client_lock = ground arith;
  buried = ground arith;
  present = ground arith;
  opened = ground arith;
  taken = ground arith;
}
Step-Inv s s' inv (Step.adds (AddStep.fail_lock p)) = record {
  silent = ground arith;
  worker_lock = ground arith;
  client_lock = ground arith;
  buried = ground arith;
  present = ground arith;
  opened = ground arith;
  taken = ground arith;
}
Step-Inv s s' inv (Step.adds (AddStep.publish p)) = record {
  silent = ground arith;
  worker_lock = ground arith;
  client_lock = ground arith;
  buried = ground arith;
  present = ground arith;
  opened = ground arith;
  taken = ground arith;
}
Step-Inv s s' inv (Step.restarts (RestartStep.clear p)) = record {
  silent = ground arith;
  worker_lock = ground arith;
  client_lock = ground arith;
  buried = ground arith;
  present = ground arith;
  opened = ground arith;
  taken = ground arith;
}
Step-Inv s s' inv (Step.restarts (RestartStep.schedule p)) = record {
  silent = ground arith;
  worker_lock = ground arith;
  client_lock = ground arith;
  buried = ground arith;
  present = ground arith;
  opened = ground arith;
  taken = ground arith;
}
Step-Inv s s' inv (Step.stops (StopStep.stop p)) = record {
  silent = ground arith;
  worker_lock = ground arith;
  client_lock = ground arith;
  buried = ground arith;
  present = ground arith;
  opened = ground arith;
  taken = ground arith;
}
Step-Inv s s' inv (Step.uninstalls (UninstallStep.lock_client p q)) = record {
  silent = ground arith;
  worker_lock = ground arith;
  client_lock = ground arith;
  buried = ground arith;
  present = ground arith;
  opened = ground arith;
  taken = ground arith;
}
Step-Inv s s' inv (Step.uninstalls (UninstallStep.stop_locked p)) = record {
  silent = ground arith;
  worker_lock = ground arith;
  client_lock = ground arith;
  buried = ground arith;
  present = ground arith;
  opened = ground arith;
  taken = ground arith;
}
Step-Inv s s' inv (Step.uninstalls (UninstallStep.unlock_client p)) = record {
  silent = ground arith;
  worker_lock = ground arith;
  client_lock = ground arith;
  buried = ground arith;
  present = ground arith;
  opened = ground arith;
  taken = ground arith;
}
Step-Inv s s' inv (Step.uninstalls (UninstallStep.bury p)) = record {
  silent = ground arith;
  worker_lock = ground arith;
  client_lock = ground arith;
  buried = ground arith;
  present = ground arith;
  opened = ground arith;
  taken = ground arith;
}
Step-Inv s s' inv (Step.uninstalls (UninstallStep.leave p)) = record {
  silent = ground arith;
  worker_lock = ground arith;
  client_lock = ground arith;
  buried = ground arith;
  present = ground arith;
  opened = ground arith;
  taken = ground arith;
}
Step-Inv s s' inv (Step.prepares (PrepareStep.see_used p q)) = record {
  silent = ground arith;
  worker_lock = ground arith;
  client_lock = ground arith;
  buried = ground arith;
  present = ground arith;
  opened = ground arith;
  taken = ground arith;
}
Step-Inv s s' inv (Step.prepares (PrepareStep.cleanup p q)) = record {
  silent = ground arith;
  worker_lock = ground arith;
  client_lock = ground arith;
  buried = ground arith;
  present = ground arith;
  opened = ground arith;
  taken = ground arith;
}
Step-Inv s s' inv (Step.prepares (PrepareStep.see_live p q)) = record {
  silent = ground arith;
  worker_lock = ground arith;
  client_lock = ground arith;
  buried = ground arith;
  present = ground arith;
  opened = ground arith;
  taken = ground arith;
}
Step-Inv s s' inv (Step.prepares (PrepareStep.see_active p q)) = record {
  silent = ground arith;
  worker_lock = ground arith;
  client_lock = ground arith;
  buried = ground arith;
  present = ground arith;
  opened = ground arith;
  taken = ground arith;
}
Step-Inv s s' inv (Step.prepares (PrepareStep.see_inactive p q)) = record {
  silent = ground arith;
  worker_lock = ground arith;
  client_lock = ground arith;
  buried = ground arith;
  present = ground arith;
  opened = ground arith;
  taken = ground arith;
}
Step-Inv s s' inv (Step.prepares (PrepareStep.adopt p q)) = record {
  silent = ground arith;
  worker_lock = ground arith;
  client_lock = ground arith;
  buried = ground arith;
  present = ground arith;
  opened = ground arith;
  taken = ground arith;
}
Step-Inv s s' inv (Step.prepares (PrepareStep.pass_over p q)) = record {
  silent = ground arith;
  worker_lock = ground arith;
  client_lock = ground arith;
  buried = ground arith;
  present = ground arith;
  opened = ground arith;
  taken = ground arith;
}
Step-Inv s s' inv (Step.prepares (PrepareStep.clear_sched p)) = record {
  silent = ground arith;
  worker_lock = ground arith;
  client_lock = ground arith;
  buried = ground arith;
  present = ground arith;
  opened = ground arith;
  taken = ground arith;
}
Step-Inv s s' inv (Step.alarms (AlarmStep.find p q r)) = record {
  silent = ground arith;
  worker_lock = ground arith;
  client_lock = ground arith;
  buried = ground arith;
  present = ground arith;
  opened = ground arith;
  taken = ground arith;
}
Step-Inv s s' inv (Step.alarms (AlarmStep.no_callback p q)) = record {
  silent = ground arith;
  worker_lock = ground arith;
  client_lock = ground arith;
  buried = ground arith;
  present = ground arith;
  opened = ground arith;
  taken = ground arith;
}
Step-Inv s s' inv (Step.alarms (AlarmStep.lock_worker p q r)) = record {
  silent = ground arith;
  worker_lock = ground arith;
  client_lock = ground arith;
  buried = ground arith;
  present = ground arith;
  opened = ground arith;
  taken = ground arith;
}
Step-Inv s s' inv (Step.alarms (AlarmStep.call p q)) = record {
  silent = ground arith;
  worker_lock = ground arith;
  client_lock = ground arith;
  buried = ground arith;
  present = ground arith;
  opened = ground arith;
  taken = ground arith;
}
Step-Inv s s' inv (Step.alarms (AlarmStep.skip p q)) = record {
  silent = ground arith;
  worker_lock = ground arith;
  client_lock = ground arith;
  buried = ground arith;
  present = ground arith;
  opened = ground arith;
  taken = ground arith;
}
Step-Inv s s' inv (Step.alarms (AlarmStep.return p)) = record {
  silent = ground arith;
  worker_lock = ground arith;
  client_lock = ground arith;
  buried = ground arith;
  present = ground arith;
  opened = ground arith;
  taken = ground arith;
}
Step-Inv s s' inv (Step.alarms (AlarmStep.unlock_worker p)) = record {
  silent = ground arith;
  worker_lock = ground arith;
  client_lock = ground arith;
  buried = ground arith;
  present = ground arith;
  opened = ground arith;
  taken = ground arith;
}
Step-Inv s s' inv (Step.alarms (AlarmStep.clear_active p)) = record {
  silent = ground arith;
  worker_lock = ground arith;
  client_lock = ground arith;
  buried = ground arith;
  present = ground arith;
  opened = ground arith;
  taken = ground arith;
}

Reach-Inv : (s : State) → Reach s → Inv s
Reach-Inv s Reach.begin = record {
  silent = ground arith;
  worker_lock = ground arith;
  client_lock = ground arith;
  buried = ground arith;
  present = ground arith;
  opened = ground arith;
  taken = ground arith;
}
Reach-Inv s' (Reach.step {s} reach next) = Step-Inv s s' (Reach-Inv s reach) next

-- In every reachable state in which the timer is installed its file descriptor is open, and its slot
-- is marked as used and not to be cleaned up; a slot that is to be cleaned up has no client.
pub Reach-installed :
    (s : State)
    → Reach s
    → (installed s.client ≡ true
        → (s.fd_open ≡ true) × (s.word.used ≡ true) × (s.word.zombie ≡ false))
      × (s.word.zombie ≡ true → gone s.client ≡ true)
Reach-installed s reach =
    let inv = Reach-Inv s reach in
    let buried = inv.buried in
    let present = inv.present in
    (λ i. (ground arith, ground arith, ground arith), λ z. ground arith)
