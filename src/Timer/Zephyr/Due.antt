-- ===== src/Timer/Zephyr/Due.antt =====
-- `gabs_timer_start`, `gabs_timer_restart`, `gabs_timer_stop` and `gabs_timer_active`
-- (timer/zephyr/timer_zephyr.c) against an abstract timer: the delay with which it is due, if any.
use gabs.Base.{
  ℕ, ◌≡◌, inl, inr, refl, ap, ap₂, ◌∙◌, Bool, true, false, Option, none, some, List, [], ◌∷◌, ◌==◌,
  if◌then◌else◌, arith, Bool-cases,
}
use gabs.Base.Run.{Cmd, pure, ◌>>=◌, Ends, ends, then-Ends, weaken}
use gabs.Sync.{ℤ, pos, negsuc}
use gabs.Timer.Kernel.{Busy, Delay, View, Calls, Documented, Waits, set_at, idle, canceled}
use gabs.Timer.Zephyr.{State, timer_start, start, restart, stop, active}

-- The calls of a client.
pub data Op : Type 0 where
  starts : ℕ → ℕ → Op
  restarts : ℕ → ℕ → Op
  stops : ℕ → Op
  asks : ℕ → Op

-- The delay that is asked of the kernel for a number of microseconds.
abbrev pub wait : ℕ → Delay
wait delay_us = if delay_us == 0 then Delay.ticks 1 else Delay.usec delay_us

abbrev pub truth : Bool → ℤ
truth true = pos 1
truth false = pos 0

abbrev pub is_due : Option Delay → Bool
is_due none = false
is_due (some d) = true

abbrev pub started : Option Delay → ℕ → ℕ → (ℕ → Option Delay) → ℤ × (ℕ → Option Delay)
started none i d due = (pos 0, set_at due i (some (wait d)))
started (some x) i d due = (negsuc 15, due)

-- What they promise: a timer that is due is not started again, with -EBUSY; it is restarted with the
-- new delay; it is active while it is due.
abbrev pub promised : Op → (ℕ → Option Delay) → ℤ × (ℕ → Option Delay)
promised (Op.starts i d) due = started (due i) i d due
promised (Op.restarts i d) due = (pos 0, set_at due i (some (wait d)))
promised (Op.stops i) due = (pos 0, set_at due i none)
promised (Op.asks i) due = (truth (is_due (due i)), due)

abbrev pub promised_all : List Op → (ℕ → Option Delay) → List ℤ × (ℕ → Option Delay)
promised_all [] due = ([], due)
promised_all (op ∷ ops) due =
    let (r, due') = promised op due in let (rs, end) = promised_all ops due' in (r ∷ rs, end)

-- The flags of a work item that is due, or not, while no handler runs.
abbrev pub flags : Option Delay → Busy
flags none = idle
flags (some d) = record idle { delayed = true }

wait-Waits : (d : ℕ) → Waits (wait d)
wait-Waits d = elim (Bool-cases (d == 0)) [
  | inl e ↦ rw e (omega arith)
  | inr e ↦ rw e (ground arith)
]

module _ {K : Type 0} (ndebug : Bool) (C : Calls K) (max : ℕ) (D : Documented C max) where
  pub exec : Op → Cmd (State K) ℤ
  exec (Op.starts i d) = start ndebug C i d
  exec (Op.restarts i d) = restart ndebug C i d
  exec (Op.stops i) = stop ndebug C i
  exec (Op.asks i) = do b ← active ndebug C i; pure (truth b)

  pub exec_all : List Op → Cmd (State K) (List ℤ)
  unfolding exec
  exec_all [] = pure []
  exec_all (op ∷ ops) = do r ← exec op; rs ← exec_all ops; pure (r ∷ rs)

  -- The timers are due as `due` says, and no handler runs or is waited for.
  pub record Stands (due : ℕ → Option Delay) (s : State K) : Type 0 where
    pub due_same : (i : ℕ) → (D.view s.kernel).due i ≡ due i
    pub flags_same : (i : ℕ) → (D.view s.kernel).busy i ≡ flags (due i)

  -- One work item has changed.
  set_at-Stands :
      {due : ℕ → Option Delay} (s s' : State K) (i : ℕ) (d : Option Delay) (b : Busy)
      → Stands due s
      → D.view s'.kernel ≡ record (D.view s.kernel) {
        busy = set_at (D.view s.kernel).busy i b;
        due = set_at (D.view s.kernel).due i d;
      }
      → b ≡ flags d
      → Stands (set_at due i d) s'
  set_at-Stands {due} s s' i d b stands seen e = record {
    due_same = λ j.
        ap (λ (v : View). v.due j) seen ∙ ap (λ x. if j == i then d else x) (stands.due_same j);
    flags_same = λ j. ap (λ (v : View). v.busy j) seen ∙ elim (Bool-cases (j == i)) [
      | inl same ↦ rw same e
      | inr other ↦ rw other (stands.flags_same j)
    ];
  }

  timer_start-Stands :
      {due : ℕ → Option Delay} (s : State K) (i d : ℕ) (x : Option Delay)
      → Stands due s
      → due i ≡ x
      → Ends
          (λ r s'. (r ≡ pos 0) × Stands (set_at due i (some (wait d))) s')
          (timer_start ndebug C i d s)
  unfolding timer_start
  timer_start-Stands {due} s i d x stands at =
      let (fine, seen) = D.reschedule_lem s.kernel i (wait d) (wait-Waits d) in
      rw fine (
        ends (
          refl,
          set_at-Stands s _ i (some (wait d)) _ stands seen
              (ap (λ (b : Busy). record b { delayed = true }) (stands.flags_same i) ∙ delayed x at),
        ))
    where
      delayed :
          (x : Option Delay)
          → due i ≡ x
          → record (flags (due i)) { delayed = true } ≡ flags (some (wait d))
      delayed none e = rw e refl
      delayed (some y) e = rw e refl

  flags_read :
      {due : ℕ → Option Delay} (s : State K) (i : ℕ) (x : Option Delay)
      → Stands due s
      → due i ≡ x
      → C.work_busy_get i s.kernel ≡ flags x
  flags_read s i x stands at = D.busy_lem s.kernel i ∙ stands.flags_same i ∙ ap flags at

  -- A call has returned what is promised, and left the timers so.
  abbrev Keeps : Op → (ℕ → Option Delay) → ℤ → State K → Type 0
  Keeps op due r s' = (r ≡ (promised op due).0) × Stands (promised op due).1 s'

  exec-Keeps :
      {due : ℕ → Option Delay} (op : Op) (s : State K)
      → Stands due s
      → Ends (Keeps op due) (exec op s)
  unfolding exec start restart stop active
  exec-Keeps {due} (Op.starts i d) s stands = by_due (due i) refl
    where
      by_due :
          (x : Option Delay) → due i ≡ x → Ends (Keeps (Op.starts i d) due) (exec (Op.starts i d) s)
      by_due none e =
          rw (flags_read s i none stands e)
            (weaken (timer_start-Stands s i d none stands e) λ r s' kept. rw e kept)
      by_due (some y) e = rw (flags_read s i (some y) stands e) (ends (rw e (refl, stands)))
  exec-Keeps {due} (Op.restarts i d) s stands = timer_start-Stands s i d (due i) stands refl
  exec-Keeps {due} (Op.stops i) s stands = ends (
    refl,
    set_at-Stands s _ i none _ stands (D.cancel_lem s.kernel i)
        (ap canceled (stands.flags_same i) ∙ not_running (due i)),
  )
    where
      not_running : (x : Option Delay) → canceled (flags x) ≡ idle
      not_running none = refl
      not_running (some d) = refl
  exec-Keeps {due} (Op.asks i) s stands = by_due (due i) refl
    where
      by_due : (x : Option Delay) → due i ≡ x → Ends (Keeps (Op.asks i) due) (exec (Op.asks i) s)
      by_due none e = rw (flags_read s i none stands e) (ends (rw e (refl, stands)))
      by_due (some y) e = rw (flags_read s i (some y) stands e) (ends (rw e (refl, stands)))

  -- Any sequence of starts, restarts, stops and questions on the timers returns what is promised, and
  -- leaves the timers due as promised: a start of a timer that is due fails with -EBUSY and changes
  -- nothing, any other and a restart make it due with its delay, at least a tick, a stop makes it not
  -- due, and a timer is active while it is due. Meanwhile no timer expires, and no handler runs or is
  -- waited for.
  pub exec_all-Stands :
      (ops : List Op) {due : ℕ → Option Delay} (s : State K)
      → Stands due s
      → Ends
          (λ rs s'. (rs ≡ (promised_all ops due).0) × Stands (promised_all ops due).1 s')
          (exec_all ops s)
  unfolding exec_all
  exec_all-Stands [] s stands = ends (refl, stands)
  exec_all-Stands (op ∷ ops) s stands = then-Ends (exec-Keeps op s stands) λ r s1 (e, stands1).
      then-Ends (exec_all-Stands ops s1 stands1) λ rs s2 (es, stands2). ends (ap₂ ◌∷◌ e es, stands2)
