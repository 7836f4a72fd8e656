-- ===== src/Timer/Posix/Life.antt =====
-- The life of one POSIX timer between a client and the worker thread (timer/posix/timer_posix.c), as
-- the interleaving of their accesses to its state word, its lock and its file descriptor. Each call
-- of timer/posix/atomic_mask.h is one step. The client installs the timer, starts and stops it, and
-- uninstalls it; its callback makes no calls on it.
mod Examples
pub mod Called
pub mod Race
pub mod Safety
use gabs.Base.{◌≡◌, Bool, true, false}
use gabs.Timer.Posix.Mask.{
  Word, no_bits, bit_used, bit_zombie, bit_active, bit_sched, bit_alloc, bit_or, bit_clear,
}

-- Where the client is: before an installation, in it, between calls, in a restart or an uninstall.
pub data Client : Type 0 where
  outside : Client
  installing : Client
  created : Client
  between : Client
  restarting : Client
  locked : Client
  stopped : Client
  unlocked : Client
  done : Client

-- Where the worker is with this timer: in `prepare_pfds`, or in `timer_alarm` and behind it.
pub data Worker : Type 0 where
  resting : Worker
  saw_used : Worker
  saw_live : Worker
  not_active : Worker
  adopted : Worker
  alarmed : Worker
  holding : Worker
  calling : Worker
  called : Worker
  fired : Worker

pub data Holder : Type 0 where
  free : Holder
  by_client : Holder
  by_worker : Holder

-- `has_cb` says whether `cb` is not NULL.
pub record State : Type 0 where
  pub word : Word
  pub has_cb : Bool
  pub fd_open : Bool
  pub lock : Holder
  pub client : Client
  pub worker : Worker

abbrev pub active_sched : Word
active_sched = bit_or bit_active bit_sched

-- `timer_add`: a slot is taken by `timer_alloc`, it gets a callback or none, a file descriptor and a
-- lock, and is then published; when one of them fails the slot is given back.
pub data AddStep (s : State) : State → Type 0 where
  take_slot :
      s.client ≡ Client.outside
      → s.word.alloc ≡ false
      → AddStep s (record s { word = bit_or s.word bit_alloc; client = Client.installing })
  create :
      (cb : Bool)
      → s.client ≡ Client.installing
      → AddStep s (record s { has_cb = cb; fd_open = true; client = Client.created })
  fail_create :
      s.client ≡ Client.installing
      → AddStep s (record s { word = no_bits; client = Client.outside })
  fail_lock :
      s.client ≡ Client.created
      → AddStep s (record s { word = no_bits; fd_open = false; client = Client.outside })
  publish :
      s.client ≡ Client.created
      → AddStep s (record s { word = bit_or s.word bit_used; client = Client.between })

-- `timer_restart`
pub data RestartStep (s : State) : State → Type 0 where
  clear :
      s.client ≡ Client.between
      → RestartStep s
          (record s { word = bit_clear s.word active_sched; client = Client.restarting })
  schedule :
      s.client ≡ Client.restarting
      → RestartStep s (record s { word = bit_or s.word bit_sched; client = Client.between })

-- `gabs_timer_stop`, called by a client that is not in `gabs_timer_uninstall`.
pub data StopStep (s : State) : State → Type 0 where
  stop : s.client ≡ Client.between → StopStep s (record s { word = bit_clear s.word active_sched })

-- `gabs_timer_uninstall`, with the call of `gabs_timer_stop` in it; then the client has no timer.
pub data UninstallStep (s : State) : State → Type 0 where
  lock_client :
      s.client ≡ Client.between
      → s.lock ≡ Holder.free
      → UninstallStep s (record s { lock = Holder.by_client; client = Client.locked })
  stop_locked :
      s.client ≡ Client.locked
      → UninstallStep s (record s { word = bit_clear s.word active_sched; client = Client.stopped })
  unlock_client :
      s.client ≡ Client.stopped
      → UninstallStep s (record s { lock = Holder.free; client = Client.unlocked })
  bury :
      s.client ≡ Client.unlocked
      → UninstallStep s (record s { word = bit_or s.word bit_zombie; client = Client.done })
  leave : s.client ≡ Client.done → UninstallStep s (record s { client = Client.outside })

-- `prepare_pfds` at the slot, with `timer_cleanup`, whose accesses are one step; the end of the lock is
-- left out
pub data PrepareStep (s : State) : State → Type 0 where
  see_used :
      s.worker ≡ Worker.resting
      → s.word.used ≡ true
      → PrepareStep s (record s { worker = Worker.saw_used })
  cleanup :
      s.worker ≡ Worker.saw_used
      → s.word.zombie ≡ true
      → PrepareStep s (record s { word = no_bits; fd_open = false; worker = Worker.resting })
  see_live :
      s.worker ≡ Worker.saw_used
      → s.word.zombie ≡ false
      → PrepareStep s (record s { worker = Worker.saw_live })
  see_active :
      s.worker ≡ Worker.saw_live
      → s.word.active ≡ true
      → PrepareStep s (record s { worker = Worker.adopted })
  see_inactive :
      s.worker ≡ Worker.saw_live
      → s.word.active ≡ false
      → PrepareStep s (record s { worker = Worker.not_active })
  adopt :
      s.worker ≡ Worker.not_active
      → s.word.sched ≡ true
      → PrepareStep s (record s { word = bit_or s.word bit_active; worker = Worker.adopted })
  pass_over :
      s.worker ≡ Worker.not_active
      → s.word.sched ≡ false
      → PrepareStep s (record s { worker = Worker.resting })
  clear_sched :
      s.worker ≡ Worker.adopted
      → PrepareStep s (record s { word = bit_clear s.word bit_sched; worker = Worker.resting })

-- `service_pfds` for the timer, with `timer_from_fd` and `timer_alarm`
pub data AlarmStep (s : State) : State → Type 0 where
  find :
      s.worker ≡ Worker.resting
      → s.word.used ≡ true
      → s.word.zombie ≡ false
      → AlarmStep s (record s { worker = Worker.alarmed })
  no_callback :
      s.worker ≡ Worker.alarmed
      → s.has_cb ≡ false
      → AlarmStep s (record s { worker = Worker.fired })
  lock_worker :
      s.worker ≡ Worker.alarmed
      → s.has_cb ≡ true
      → s.lock ≡ Holder.free
      → AlarmStep s (record s { lock = Holder.by_worker; worker = Worker.holding })
  call :
      s.worker ≡ Worker.holding
      → s.word.active ≡ true
      → AlarmStep s (record s { worker = Worker.calling })
  skip :
      s.worker ≡ Worker.holding
      → s.word.active ≡ false
      → AlarmStep s (record s { worker = Worker.called })
  return : s.worker ≡ Worker.calling → AlarmStep s (record s { worker = Worker.called })
  unlock_worker :
      s.worker ≡ Worker.called
      → AlarmStep s (record s { lock = Holder.free; worker = Worker.fired })
  clear_active :
      s.worker ≡ Worker.fired
      → AlarmStep s (record s { word = bit_clear s.word bit_active; worker = Worker.resting })

-- One access of the client or of the worker.
pub data Step (s : State) : State → Type 0 where
  adds : {s' : State} → AddStep s s' → Step s s'
  restarts : {s' : State} → RestartStep s s' → Step s s'
  stops : {s' : State} → StopStep s s' → Step s s'
  uninstalls : {s' : State} → UninstallStep s s' → Step s s'
  prepares : {s' : State} → PrepareStep s s' → Step s s'
  alarms : {s' : State} → AlarmStep s s' → Step s s'

abbrev pub initial : State
initial = record {
  word = no_bits;
  has_cb = false;
  fd_open = false;
  lock = Holder.free;
  client = Client.outside;
  worker = Worker.resting;
}

-- What a client and the worker reach from a slot that was cleared.
pub data Reach : State → Type 0 where
  begin : Reach initial
  step : {s s' : State} → Reach s → Step s s' → Reach s'
