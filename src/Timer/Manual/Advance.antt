-- ===== src/Timer/Manual/Advance.antt =====
-- `gabs_timer_manual_advance` (timer/manual/timer_manual.c) fires what is due, and ends.
use gabs.Base.{
  ℕ, zero, suc, ◌+◌, ◌-◌, ◌≤◌, ◌<◌, ◌^◌, ◌≡◌, refl, subst, false, some, arith, get_elem?, set,
  add64, lt→ltb, inl, inr, Option-cases,
}
use gabs.Base.Run.{Cmd, ok, Ends, ends, weaken, then-Ends}
use gabs.Timer.Manual.{
  Timer, Ctx, next_expired, increment, timer_fire, advance_loop, advance, timer_at, on_ctx,
}
use gabs.Timer.Manual.Next.{Due, Earliest, next_expired-Earliest}
use gabs.Timer.Manual.Count.{due_count, Within, due_count-Within, due_count-set}

pub increment_lem : {S : Type 0} (n : ℕ) (s : S) → n < 2 ^ 31 - 1 → increment n s ≡ ok (suc n) s
unfolding increment
increment_lem n s h = rw (lt→ltb n (2 ^ 31 - 1) h) refl

pub timer_at_lem :
    (t : ℕ) (x : Timer) (c : Ctx) → get_elem? c.timers t ≡ some x → timer_at t c ≡ ok x c
unfolding timer_at
timer_at_lem t x c got = rw (got, timer_at) refl

abbrev pub stopped : Timer → Timer
stopped x = record x { active = false }

pub stopped-not_Due : (end_us : ℕ) (x : Timer) → ¬ Due end_us (stopped x)
stopped-not_Due end_us x (used, active, by) = ground arith

module _ {W : Type 0} (call : ℕ → ℕ → ℕ → Cmd (W × Ctx) (Unit {0})) where
  -- With the clock at `end_us` or before, a callback returns, and every timer that is due by `end_us`
  -- after it was so before it: a timer that the callback starts expires later.
  abbrev pub Calm : ℕ → Type 0
  Calm end_us =
      (cb t arg : ℕ) (w : W) (c : Ctx)
      → c.now_us ≤ end_us
      → Ends (λ _ s. Within end_us c.timers s.1.timers) (call cb t arg (w, c))

  -- No timer is due any more, and between the two numbers of callbacks were counted.
  abbrev pub Settled : ℕ → ℕ → ℕ → ℕ → W × Ctx → Type 0
  Settled end_us low high n (w, c) =
      (low ≤ n)
      × (n ≤ high)
      × ((j : ℕ) (y : Timer) → get_elem? c.timers j ≡ some y → ¬ Due end_us y)

  pub timer_fire_lem :
      (t : ℕ) (x : Timer) (w : W) (c : Ctx)
      → get_elem? c.timers t ≡ some x
      → timer_fire call t (w, c)
        ≡ call x.cb t x.user_arg (w, record c { timers = set c.timers t (stopped x) })
  unfolding timer_fire
  timer_fire_lem t x w c got = rw (timer_at_lem t x c got, on_ctx) refl

  advance_loop-Settled :
      (end_us : ℕ)
      → Calm end_us
      → (k count : ℕ) (w : W) (c : Ctx) → due_count end_us c.timers < k
      → count + due_count end_us c.timers < 2 ^ 31
      → Ends
          (Settled end_us count (count + due_count end_us c.timers))
          (advance_loop call k end_us count (w, c))
  unfolding advance_loop
  advance_loop-Settled end_us calm zero count w c fuel small = absurd (omega arith)
  advance_loop-Settled end_us calm (suc k) count w c fuel small =
      elim (Option-cases (next_expired c end_us)) [
        | inl e ↦
            rw (e, advance_loop)
              (ends (
                omega arith,
                omega arith,
                subst (Earliest end_us c.timers) e (next_expired-Earliest c end_us),
              ))
        | inr ((t, x), e) ↦
            let (here, due, first) =
              subst (Earliest end_us c.timers) e (next_expired-Earliest c end_us) in
            let c1 = record c { now_us = x.expiry_us } in
            let c2 = record c1 { timers = set c.timers t (stopped x) } in
            let less =
              due_count-set end_us c.timers t x (stopped x) here due (stopped-not_Due end_us x) in
            rw (e, advance_loop, timer_fire_lem t x w c1 here)
              (then-Ends (calm x.cb t x.user_arg w c2 due.2) λ u (w', c') within.
                let fewer = due_count-Within end_us c2.timers c'.timers within in
                rw (increment_lem {S = W × Ctx} count (w', c') (omega arith)) (
                  weaken
                    (advance_loop-Settled end_us calm k (suc count) w' c' (omega arith)
                      (omega arith))
                    λ n s (low, high, none_due). (omega arith, omega arith, none_due)))
      ]

  -- When callbacks return and start no timer that expires by the end, `gabs_timer_manual_advance`
  -- ends, with the clock at the end, no timer due any more, and no more callbacks counted than timers
  -- were due. The end is the old time plus `us`, modulo 2 ^ 64. There are more rounds than timers
  -- due, and fewer of them than 2 ^ 31.
  pub advance-Settled :
      (fuel us : ℕ) (w : W) (c : Ctx)
      → Calm (add64 c.now_us us)
      → due_count (add64 c.now_us us) c.timers < fuel
      → due_count (add64 c.now_us us) c.timers < 2 ^ 31
      → Ends
          (λ n s.
            (s.1.now_us ≡ add64 c.now_us us)
            × Settled (add64 c.now_us us) 0 (due_count (add64 c.now_us us) c.timers) n s)
          (advance call fuel us (w, c))
  unfolding advance
  advance-Settled fuel us w c calm enough small =
      then-Ends (advance_loop-Settled (add64 c.now_us us) calm fuel 0 w c enough (omega arith))
        λ n s (low, high, none_due). ends (refl, (low, omega arith, none_due))
