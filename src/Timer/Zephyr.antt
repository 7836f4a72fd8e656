-- ===== src/Timer/Zephyr.antt =====
-- Timers for Zephyr (timer/zephyr/timer_zephyr.c, timer/zephyr/gabs_timer_def.h), over the calls of
-- its kernel. A timer is its index in the pool, NULL is `none`, a context is its address.
pub mod Good
pub mod Pool
pub mod Deinit
pub mod Due
pub mod Expiry
mod Examples
use gabs.Base.{
  ℕ, ◌+◌, zero, suc, Bool, true, false, not, ◌&&◌, ◌||◌, Option, none, some, ◌==◌, ltb,
  if◌then◌else◌,
}
use gabs.Base.Run.{Cmd, ok, pure, stuck, ◌>>=◌, ◌>>◌}
use gabs.Pbuf.Iface.{assert}
use gabs.Sync.{ℤ, pos, negated}
use gabs.Timer.Kernel.{Busy, Delay, Calls, set_at}

-- `struct timer_info`, whose work item and node are the kernel's; `callback` is none for NULL
pub record Info : Type 0 where
  pub callback : Option ℕ
  pub user_data : ℕ
  pub ctx : ℕ

-- `pool`, `firing` of each thread, and the kernel
pub record State (K : Type 0) : Type 0 where
  pub pool : ℕ → Info
  pub firing : ℕ → Option ℕ
  pub kernel : K

abbrev pub ebusy : ℕ
ebusy = 16

-- `k_work_delayable_busy_get(...) != 0`
abbrev pub any_flag : Busy → Bool
any_flag b = b.running || (b.canceling || (b.queued || (b.delayed || b.flushing)))

-- `info == firing`
abbrev pub is_timer : ℕ → Option ℕ → Bool
is_timer i none = false
is_timer i (some j) = i == j

module _ {K : Type 0} where
  -- a call of the kernel
  abbrev pub calls : {A : Type 0} → (K → A × K) → Cmd (State K) A
  calls f s = let (a, k) = f s.kernel in ok a (record s { kernel = k })

  abbrev pub does : (K → K) → Cmd (State K) (Unit {0})
  does f s = ok tt (record s { kernel = f s.kernel })

  abbrev pub set_firing : ℕ → Option ℕ → Cmd (State K) (Unit {0})
  set_firing thread t s = ok tt (record s { firing = set_at s.firing thread t })

  module _ (ndebug : Bool) (C : Calls K) where
    -- `reserve`
    pub reserve : Cmd (State K) (Option ℕ)
    reserve = calls C.bitarray_alloc

    -- `release`
    pub release : ℕ → Cmd (State K) (Unit {0})
    release i = do status ← calls (C.bitarray_free i); assert ndebug status

    -- the call of the callback in `timer_expiry`, given what callbacks do with the timer and the
    -- user's data, and the flags of the work item
    pub expire : (ℕ → ℕ → ℕ → Cmd (State K) (Unit {0})) → ℕ → Info → Busy → Cmd (State K) (Unit {0})
    expire run i info busy = elim info.callback [
      | none ↦ pure tt
      | some cb ↦ if not busy.canceling then run cb i info.user_data else pure tt
    ]

    -- `timer_expiry` in a thread
    pub timer_expiry : (ℕ → ℕ → ℕ → Cmd (State K) (Unit {0})) → ℕ → ℕ → Cmd (State K) (Unit {0})
    unfolding expire
    timer_expiry run thread i = do
      set_firing thread (some i)
      λ s. expire run i (s.pool i) (C.work_busy_get i s.kernel) s
      set_firing thread none

    -- `gabs_timer_okay`
    pub timer_okay : Option ℕ → Bool
    timer_okay none = false
    timer_okay (some i) = true

    -- what follows a reservation in `gabs_timer_install`
    pub fill : ℕ → Option ℕ → ℕ → ℕ → Cmd (State K) (Unit {0})
    fill ctx cb user_data i = do
      λ s. ok tt (record s {
        pool = set_at s.pool i (record { callback = cb; user_data = user_data; ctx = ctx });
      })
      does (C.mutex_lock ctx)
      does (C.dlist_append ctx i)
      does (C.mutex_unlock ctx)

    -- `gabs_timer_install`
    pub install : ℕ → Option ℕ → ℕ → Cmd (State K) (Option ℕ)
    unfolding reserve fill
    install ctx cb user_data = do
      info ← reserve
      elim info [ none ↦ pure none | some i ↦ (do fill ctx cb user_data i; pure (some i)) ]

    -- `gabs_timer_uninstall`, called in a thread
    pub uninstall : ℕ → ℕ → Cmd (State K) ℤ
    unfolding release
    uninstall thread i = do
      λ s. does (C.mutex_lock (s.pool i).ctx) s
      does (C.dlist_remove i)
      λ s. does (C.mutex_unlock (s.pool i).ctx) s
      λ s.
          (if is_timer i (s.firing thread)
              then does (C.work_cancel i)
              else does (C.work_cancel_sync i))
            s
      release i
      pure (pos 0)

    -- `timer_start`
    pub timer_start : ℕ → ℕ → Cmd (State K) ℤ
    timer_start i delay_us = do
      let timeout = if delay_us == 0 then Delay.ticks 1 else Delay.usec delay_us
      status ← calls (C.work_reschedule i timeout)
      assert ndebug status
      pure (pos 0)

    -- `gabs_timer_start`
    pub start : ℕ → ℕ → Cmd (State K) ℤ
    unfolding timer_start
    start i delay_us s =
        (if any_flag (C.work_busy_get i s.kernel)
            then pure (negated ebusy)
            else timer_start i delay_us)
          s

    -- `gabs_timer_restart`
    pub restart : ℕ → ℕ → Cmd (State K) ℤ
    unfolding timer_start
    restart i delay_us = timer_start i delay_us

    -- `gabs_timer_stop`
    pub stop : ℕ → Cmd (State K) ℤ
    stop i = do does (C.work_cancel i); pure (pos 0)

    -- `gabs_timer_active`: the flags but K_WORK_CANCELING and K_WORK_FLUSHING
    pub active : ℕ → Cmd (State K) Bool
    active i s = let b = C.work_busy_get i s.kernel in ok (b.running || (b.queued || b.delayed)) s

    -- `gabs_timer_ctx_init`
    pub ctx_init : ℕ → Cmd (State K) ℤ
    ctx_init ctx = do does (C.dlist_init ctx); does (C.mutex_init ctx); pure (pos 0)

    -- the loop of `gabs_timer_ctx_deinit`, which looks up the next node first
    pub deinit_loop : ℕ → ℕ → Option ℕ → Cmd (State K) (Unit {0})
    unfolding release
    deinit_loop zero ctx info s = stuck s
    deinit_loop (suc f) ctx none s = ok tt s
    deinit_loop (suc f) ctx (some i) s =
        let nxt = C.dlist_peek_next ctx i s.kernel in
        (do does (C.dlist_remove i); does (C.work_cancel_sync i); release i; deinit_loop f ctx nxt)
          s

    -- `gabs_timer_ctx_deinit`
    pub ctx_deinit : ℕ → ℕ → Cmd (State K) ℤ
    unfolding deinit_loop
    ctx_deinit fuel ctx s =
        (do deinit_loop fuel ctx (C.dlist_peek_head ctx s.kernel); pure (pos 0)) s

    -- the loop of `init_timers` over a pool of `max` timers, from `i` on
    pub init_loop : ℕ → ℕ → Cmd (State K) (Unit {0})
    init_loop zero i = pure tt
    init_loop (suc left) i = do does (C.work_init i); init_loop left (i + 1)

    -- `init_timers`
    pub init_timers : ℕ → Cmd (State K) ℤ
    unfolding init_loop
    init_timers max = do init_loop max 0; pure (pos 0)
