-- ===== src/Timer/Posix/Client/Seen.antt =====
-- What the calls on a POSIX timer (timer/posix/timer_posix.c) do to its slot, and to what is seen of the
-- system.
use gabs.Base.{ℕ, suc, ◌≡◌, refl, ap, ◌∙◌, ◌<◌, Bool, true, false, List, arith}
use gabs.Base.Run.{Ends, ends, then-Ends}
use gabs.Sync.{pos, success}
use gabs.Time.{Timespec, to_itimerspec}
use gabs.Time.Exact.{to_itimerspec-exact}
use gabs.Timer.Posix.Mask.{
  Word, Attempt, Outcome, bit_zombie, bit_sched, bit_or, bit_clear, mask_set, mask_clear,
}
use gabs.Timer.Posix.Mask.Alone.{alone, mask_set-alone, mask_clear-alone}
use gabs.Timer.Posix.Life.{active_sched}
use gabs.Timer.Posix.Scan.{Fd}
use gabs.Timer.Posix.Client.{
  Calls, State, no_time, status_of, on_word, set_time, trigger_reset, timer_restart, stop,
  timer_lock, timer_unlock, uninstall,
}

-- What a client can see of the system: the time that the timer's descriptor is set to, how often the
-- event was written, and whether the thread holds the lock of the timer.
pub record View : Type 0 where
  pub armed : Timespec
  pub woken : ℕ
  pub held : Bool

-- The documented behaviour of the calls, where `fd` is open: a time with less than a second of nanoseconds
-- is set, the event is written, and a lock that the thread does not hold is taken and released.
pub record Documented {K : Type 0} (C : Calls K) (fd : Fd) : Type 0 where
  pub view : K → View
  pub settime_lem :
      (k : K) (spec : Timespec)
      → spec.tv_nsec < 1000000000
      → ((C.settime fd spec k).0 ≡ success)
        × (view (C.settime fd spec k).1 ≡ record (view k) { armed = spec })
  pub wake_lem :
      (k : K)
      → ((C.wake k).0 ≡ true) × (view (C.wake k).1 ≡ record (view k) { woken = suc (view k).woken })
  pub lock_lem : (k : K) → (view k).held ≡ false → view (C.lock k) ≡ record (view k) { held = true }
  pub unlock_lem :
      (k : K) → (view k).held ≡ true → view (C.unlock k) ≡ record (view k) { held = false }

cleared : (mask w : Word) → (alone (mask_clear mask) w).0 ≡ bit_clear w mask
cleared mask w = ap (λ r. r.0) (mask_clear-alone mask w)

added : (mask w : Word) → (alone (mask_set mask) w).0 ≡ bit_or w mask
added mask w = ap (λ r. r.0) (mask_set-alone mask w)

module _ {K : Type 0} (C : Calls K) (fd : Fd) (D : Documented C fd) where
  -- The descriptor, the state word, `firing`, and what is seen of the system.
  pub record Seen (w : Word) (f : Bool) (v : View) (s : State K) : Type 0 where
    pub is_open : s.slot.fd ≡ fd
    pub word : s.slot.state ≡ w
    pub inside : s.firing ≡ f
    pub view : D.view s.kernel ≡ v

  on_word-Seen :
      {w w' : Word} {f : Bool} {v : View} {s : State K} (op : List Attempt → Outcome)
      → Seen w f v s
      → (alone op w).0 ≡ w'
      → Ends (λ _. Seen w' f v) (on_word op s)
  on_word-Seen op seen e = ends (record {
    is_open = seen.is_open;
    word = ap (λ w. (alone op w).0) seen.word ∙ e;
    inside = seen.inside;
    view = seen.view;
  })

  set_time-Seen :
      {w : Word} {f : Bool} {v : View} {s : State K} (spec : Timespec)
      → Seen w f v s
      → spec.tv_nsec < 1000000000
      → Ends (λ r s'. (r ≡ pos 0) × Seen w f (record v { armed = spec }) s') (set_time C spec s)
  set_time-Seen {s} spec seen small =
      let (fine, after) = D.settime_lem s.kernel spec small in
      ends (
        ap (λ g. status_of (C.settime g spec s.kernel).0) seen.is_open ∙ ap status_of fine,
        record {
          is_open = seen.is_open;
          word = seen.word;
          inside = seen.inside;
          view =
              ap (λ g. D.view (C.settime g spec s.kernel).1) seen.is_open
              ∙ after
              ∙ ap (λ (v : View). record v { armed = spec }) seen.view;
        },
      )

  trigger_reset-Seen :
      {w : Word} {f : Bool} {v : View} {s : State K}
      → Seen w f v s
      → Ends (λ _. Seen w f (record v { woken = suc v.woken })) (trigger_reset C s)
  unfolding trigger_reset
  trigger_reset-Seen {s} seen =
      let (fine, after) = D.wake_lem s.kernel in
      rw fine (
        ends (record {
          is_open = seen.is_open;
          word = seen.word;
          inside = seen.inside;
          view = after ∙ ap (λ (v : View). record v { woken = suc v.woken }) seen.view;
        }))

  -- The time of the timer is set, and the worker is woken.
  abbrev rearmed : Timespec → View → View
  rearmed spec v = record v { armed = spec; woken = suc v.woken }

  pub timer_restart-Seen :
      {w : Word} {f : Bool} {v : View} {s : State K} (d : ℕ)
      → Seen w f v s
      → Ends
          (λ r s'.
            (r ≡ pos 0)
            × Seen (bit_or (bit_clear w active_sched) bit_sched) f (rearmed (to_itimerspec d) v) s')
          (timer_restart C d s)
  unfolding timer_restart
  timer_restart-Seen {w} d seen =
      then-Ends (on_word-Seen (mask_clear active_sched) seen (cleared active_sched w)) λ _ s1 seen1.
        then-Ends (set_time-Seen (to_itimerspec d) seen1 (to_itimerspec-exact d).0)
          λ r s2 (e, seen2).
            then-Ends (on_word-Seen (mask_set bit_sched) seen2 (added bit_sched _))
              λ _ s3 seen3. then-Ends (trigger_reset-Seen seen3) λ _ s4 seen4. ends (e, seen4)

  pub stop-Seen :
      {w : Word} {f : Bool} {v : View} {s : State K}
      → Seen w f v s
      → Ends
          (λ r s'. (r ≡ pos 0) × Seen (bit_clear w active_sched) f (rearmed no_time v) s')
          (stop C s)
  unfolding stop
  stop-Seen {w} seen =
      then-Ends (on_word-Seen (mask_clear active_sched) seen (cleared active_sched w)) λ _ s1 seen1.
        then-Ends (set_time-Seen no_time seen1 (omega arith))
          λ r s2 (e, seen2). then-Ends (trigger_reset-Seen seen2) λ _ s3 seen3. ends (e, seen3)

  lock-Seen :
      {w : Word} {f : Bool} {a : Timespec} {n : ℕ} {s : State K}
      → Seen w f (record { armed = a; woken = n; held = f }) s
      → Ends (λ _. Seen w f (record { armed = a; woken = n; held = true })) (timer_lock C s)
  unfolding timer_lock
  lock-Seen {f = true} seen =
      rw seen.inside (
        ends (record { is_open = seen.is_open; word = seen.word; inside = refl; view = seen.view }))
  lock-Seen {f = false} {s} seen = rw seen.inside (
      ends (record {
        is_open = seen.is_open;
        word = seen.word;
        inside = refl;
        view =
            D.lock_lem s.kernel (ap (λ (v : View). v.held) seen.view)
            ∙ ap (λ (v : View). record v { held = true }) seen.view;
      }))

  unlock-Seen :
      {w : Word} {f : Bool} {a : Timespec} {n : ℕ} {s : State K}
      → Seen w f (record { armed = a; woken = n; held = true }) s
      → Ends (λ _. Seen w f (record { armed = a; woken = n; held = f })) (timer_unlock C s)
  unfolding timer_unlock
  unlock-Seen {f = true} seen =
      rw seen.inside (
        ends (record { is_open = seen.is_open; word = seen.word; inside = refl; view = seen.view }))
  unlock-Seen {f = false} {s} seen = rw seen.inside (
      ends (record {
        is_open = seen.is_open;
        word = seen.word;
        inside = refl;
        view =
            D.unlock_lem s.kernel (ap (λ (v : View). v.held) seen.view)
            ∙ ap (λ (v : View). record v { held = false }) seen.view;
      }))

  pub uninstall-Seen :
      {w : Word} {f : Bool} {a : Timespec} {n : ℕ} {s : State K}
      → Seen w f (record { armed = a; woken = n; held = f }) s
      → Ends
          (λ r s'.
            (r ≡ pos 0)
            × Seen
                (bit_or (bit_clear w active_sched) bit_zombie)
                f
                (record { armed = no_time; woken = suc n; held = f })
                s')
          (uninstall C s)
  unfolding uninstall
  uninstall-Seen {w} seen = then-Ends (lock-Seen seen) λ _ s1 seen1.
      then-Ends (stop-Seen seen1) λ _ s2 (_, seen2). then-Ends (unlock-Seen seen2) λ _ s3 seen3.
        then-Ends (on_word-Seen (mask_set bit_zombie) seen3 (added bit_zombie _))
          λ _ s4 seen4. ends (refl, seen4)
