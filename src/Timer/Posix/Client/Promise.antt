-- ===== src/Timer/Posix/Client/Promise.antt =====
-- What the calls on a POSIX timer (timer/posix/timer_posix.c) promise a client.
use gabs.Base.{
  ℕ, suc, ◌≡◌, refl, ap, ap₂, ◌∙◌, ◌||◌, Bool, true, false, Option, none, some, List, [], ◌∷◌,
  if◌then◌else◌, arith,
}
use gabs.Base.Run.{Cmd, pure, ◌>>=◌, Ends, ends, then-Ends, weaken}
use gabs.Sync.{ℤ, pos, negsuc}
use gabs.Time.{Timespec, to_itimerspec}
use gabs.Timer.Posix.Mask.{Word, mask_get}
use gabs.Timer.Posix.Scan.{Fd}
use gabs.Timer.Posix.Client.Seen.{Documented, Seen, timer_restart-Seen, stop-Seen, uninstall-Seen}
use gabs.Timer.Posix.Client.{
  Calls, State, no_time, is_busy, timer_restart, start, restart, stop, active, uninstall,
}

-- The calls of a client.
pub data Op : Type 0 where
  starts : ℕ → Op
  restarts : ℕ → Op
  stops : Op
  uninstalls : Op
  asks : Op

-- An abstract timer: its delay while it is scheduled or active, how often the worker was woken, and
-- whether it was given back.
pub record Due : Type 0 where
  pub delay : Option ℕ
  pub wakes : ℕ
  pub gone : Bool

abbrev pub truth : Bool → ℤ
truth true = pos 1
truth false = pos 0

abbrev pub is_due : Option ℕ → Bool
is_due none = false
is_due (some d) = true

abbrev pub time : Option ℕ → Timespec
time none = no_time
time (some d) = to_itimerspec d

abbrev pub set_due : Option ℕ → Due → Due
set_due d due = record due { delay = d; wakes = suc due.wakes }

abbrev pub promised : Op → Due → ℤ × Due
promised (Op.starts d) due =
    if is_due due.delay then (negsuc 15, due) else (pos 0, set_due (some d) due)
promised (Op.restarts d) due = (pos 0, set_due (some d) due)
promised Op.stops due = (pos 0, set_due none due)
promised Op.uninstalls due = (pos 0, record (set_due none due) { gone = true })
promised Op.asks due = (truth (is_due due.delay), due)

abbrev pub promised_all : List Op → Due → List ℤ × Due
promised_all [] due = ([], due)
promised_all (op ∷ ops) due =
    let (r, due') = promised op due in let (rs, end) = promised_all ops due' in (r ∷ rs, end)

is_busy_lem : (w : Word) → is_busy w ≡ w.active || w.sched
unfolding mask_get
is_busy_lem w = ground arith

module _ {K : Type 0} (C : Calls K) (fd : Fd) (D : Documented C fd) where
  pub exec : Op → Cmd (State K) ℤ
  exec (Op.starts d) = start C d
  exec (Op.restarts d) = restart C d
  exec Op.stops = stop C
  exec Op.uninstalls = uninstall C
  exec Op.asks = do b ← active C; pure (truth b)

  pub exec_all : List Op → Cmd (State K) (List ℤ)
  unfolding exec
  exec_all [] = pure []
  exec_all (op ∷ ops) = do r ← exec op; rs ← exec_all ops; pure (r ∷ rs)

  -- The timer is as `due` says; a client that is its callback holds its lock, and any other does not.
  pub record Stands (due : Due) (f : Bool) (s : State K) : Type 0 where
    pub is_open : s.slot.fd ≡ fd
    pub inside : s.firing ≡ f
    pub busy : s.slot.state.active || s.slot.state.sched ≡ is_due due.delay
    pub zombie : s.slot.state.zombie ≡ due.gone
    pub view : D.view s.kernel ≡ record { armed = time due.delay; woken = due.wakes; held = f }

  Stands-Seen :
      {due : Due} {f : Bool} {s : State K}
      → Stands due f s
      → Seen C fd D s.slot.state f
          (record { armed = time due.delay; woken = due.wakes; held = f })
          s
  Stands-Seen stands = record {
    is_open = stands.is_open;
    word = refl;
    inside = stands.inside;
    view = stands.view;
  }

  Seen-Stands :
      {due : Due} {w : Word} {f : Bool} {s : State K}
      → Seen C fd D w f (record { armed = time due.delay; woken = due.wakes; held = f }) s
      → w.active || w.sched ≡ is_due due.delay
      → w.zombie ≡ due.gone
      → Stands due f s
  Seen-Stands seen busy zombie = record {
    is_open = seen.is_open;
    inside = seen.inside;
    busy = ap (λ (w : Word). w.active || w.sched) seen.word ∙ busy;
    zombie = ap (λ (w : Word). w.zombie) seen.word ∙ zombie;
    view = seen.view;
  }

  -- A call has returned what is promised, and left the timer so.
  abbrev Keeps : Op → Due → Bool → ℤ → State K → Type 0
  Keeps op due f r s' = (r ≡ (promised op due).0) × Stands (promised op due).1 f s'

  restart-Keeps :
      {due : Due} {f : Bool} (d : ℕ) (s : State K)
      → Stands due f s
      → Ends (Keeps (Op.restarts d) due f) (timer_restart C d s)
  restart-Keeps d s stands =
      weaken (timer_restart-Seen C fd D d (Stands-Seen stands))
        λ r s' (e, seen). (e, Seen-Stands seen (ground arith) (ground (arith, stands.zombie)))

  exec-Keeps :
      {due : Due} {f : Bool} (op : Op) (s : State K)
      → Stands due f s
      → Ends (Keeps op due f) (exec op s)
  unfolding exec start restart active
  exec-Keeps {due} {f} (Op.starts d) s stands = by_due (is_due due.delay) refl
    where
      by_due :
          (b : Bool)
          → is_due due.delay ≡ b
          → Ends (Keeps (Op.starts d) due f) (exec (Op.starts d) s)
      by_due false e =
          rw (is_busy_lem s.slot.state ∙ stands.busy ∙ e)
            (weaken (restart-Keeps d s stands) λ r s' kept. rw e kept)
      by_due true e = rw (is_busy_lem s.slot.state ∙ stands.busy ∙ e) (ends (rw e (refl, stands)))
  exec-Keeps (Op.restarts d) s stands = restart-Keeps d s stands
  exec-Keeps Op.stops s stands =
      weaken (stop-Seen C fd D (Stands-Seen stands))
        λ r s' (e, seen). (e, Seen-Stands seen (ground arith) (ground (arith, stands.zombie)))
  exec-Keeps Op.uninstalls s stands =
      weaken (uninstall-Seen C fd D (Stands-Seen stands))
        λ r s' (e, seen). (e, Seen-Stands seen (ground arith) (ground arith))
  exec-Keeps Op.asks s stands = ends (ap truth (is_busy_lem s.slot.state ∙ stands.busy), stands)

  -- Any sequence of calls on a timer, from its callback or from elsewhere, returns what is promised: a start
  -- of a timer that is scheduled or active fails with -EBUSY and changes nothing; any other and a restart
  -- set the descriptor to the delay, a stop and an uninstall clear it, and each of these wakes the
  -- worker once; a timer is active from a start or a restart until a stop or an uninstall, which also
  -- gives it back. The lock is held afterwards as before, and is never taken by a thread that holds it:
  -- the behaviour of the system is only known where it is free. Nobody else writes the slot meanwhile.
  pub exec_all-Promised :
      (ops : List Op) {due : Due} {f : Bool} (s : State K)
      → Stands due f s
      → Ends
          (λ rs s'. (rs ≡ (promised_all ops due).0) × Stands (promised_all ops due).1 f s')
          (exec_all ops s)
  unfolding exec_all
  exec_all-Promised [] s stands = ends (refl, stands)
  exec_all-Promised (op ∷ ops) s stands = then-Ends (exec-Keeps op s stands) λ r s1 (e, stands1).
      then-Ends (exec_all-Promised ops s1 stands1)
        λ rs s2 (es, stands2). ends (ap₂ ◌∷◌ e es, stands2)
