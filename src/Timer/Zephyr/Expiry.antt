-- ===== src/Timer/Zephyr/Expiry.antt =====
-- `timer_expiry` (timer/zephyr/timer_zephyr.c), the handler of a timer's work item.
use gabs.Base.{
  ℕ, ◌≡◌, ◌≢◌, refl, ap, ◌∙◌, Bool, true, false, Option, none, some, ==-refl, ==-false_of_ne,
}
use gabs.Base.Run.{Cmd, ok, pure, ◌>>=◌}
use gabs.Timer.Kernel.{Busy, Calls, Documented, set_at, canceled}
use gabs.Timer.Zephyr.{State, expire, timer_expiry, uninstall}
use gabs.Timer.Zephyr.Good.{without_timer}
use gabs.Timer.Zephyr.Pool.{view, InOrder, uninstall-Released}

module _ {K : Type 0} (ndebug : Bool) (C : Calls K) (max : ℕ) (D : Documented C max) where
  -- A callback that uninstalls its timer.
  abbrev pub uninstalls : (thread cb i user_data : ℕ) → Cmd (State K) (Unit {0})
  uninstalls thread cb i user_data = do _ ← uninstall ndebug C thread i; pure tt

  module _ (thread i : ℕ) (s : State K) where
    -- The state in the handler.
    abbrev pub inside : State K
    inside = record s { firing = set_at s.firing thread (some i) }

    -- A work item that is canceled while it waits for its handler calls no callback, whatever that
    -- does.
    pub timer_expiry-canceling :
        (run : ℕ → ℕ → ℕ → Cmd (State K) (Unit {0}))
        → ((view ndebug C max D s).busy i).canceling ≡ true
        → timer_expiry ndebug C run thread i s
          ≡ ok tt (record inside { firing = set_at inside.firing thread none })
    unfolding timer_expiry expire
    timer_expiry-canceling run e =
        let flag : (C.work_busy_get i s.kernel).canceling ≡ true =
          ap (λ (b : Busy). b.canceling) (D.busy_lem s.kernel i) ∙ e in
        by_callback (s.pool i).callback refl flag
      where
        by_callback :
            (cb : Option ℕ)
            → (s.pool i).callback ≡ cb
            → (C.work_busy_get i s.kernel).canceling ≡ true
            → timer_expiry ndebug C run thread i s
              ≡ ok tt (record inside { firing = set_at inside.firing thread none })
        by_callback none e flag = rw e
        by_callback (some cb) e flag = rw (e, flag)

    -- A callback that uninstalls its own timer returns: the handler ends, and the timer is out of its
    -- list, free and not due, its work item asked to stop; nothing else has changed, and the thread is
    -- in no callback. The timer is taken and has a callback, its work item is not being canceled, the
    -- pool is in order in the handler, and no other thread is in the timer's callback.
    pub timer_expiry-uninstalls :
        (cb : ℕ)
        → InOrder ndebug C max D inside
        → (view ndebug C max D s).taken i ≡ true
        → ((t : ℕ) → t ≢ thread → s.firing t ≢ some i)
        → (s.pool i).callback ≡ some cb
        → ((view ndebug C max D s).busy i).canceling ≡ false
        → (s' : State K) × (timer_expiry ndebug C (uninstalls thread) thread i s ≡ ok tt s')
          × (view ndebug C max D s'
              ≡ without_timer (view ndebug C max D s) i (canceled ((view ndebug C max D s).busy i)))
          × (s'.pool ≡ s.pool)
          × (s'.firing thread ≡ none)
    unfolding timer_expiry expire
    timer_expiry-uninstalls cb good taken elsewhere has idle_flag =
        let flag : (C.work_busy_get i s.kernel).canceling ≡ false =
          ap (λ (b : Busy). b.canceling) (D.busy_lem s.kernel i) ∙ idle_flag in
        let (s1, run, seen, pools, _, _) =
          uninstall-Released ndebug C max D thread i inside good taken
            (λ t ne. rw (==-false_of_ne t thread ne) (elsewhere t ne)) in
        (
          record s1 { firing = set_at s1.firing thread none },
          rw (has, flag, run),
          seen ∙ rw (==-refl thread, ==-refl i),
          pools,
          rw (==-refl thread),
        )
