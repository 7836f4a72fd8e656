-- ===== src/Timer/Manual.antt =====
-- Manual timers (timer/manual/gabs_timer_def.h, timer/manual/timer_manual.c): a context with a clock
-- that only its client moves. A timer is passed by its index in the context's array, whose length
-- `GABS_CONFIG_TIMER_MANUAL_MAX` is the length of a list.
pub mod Advance
pub mod Count
mod Examples
pub mod Install
pub mod Next
pub mod Ops
pub mod Order
pub mod Trace
use gabs.Base.{
  ℕ, zero, suc, ◌-◌, ◌^◌, Bool, true, false, not, ◌||◌, ◌&&◌, Option, none, some, List, [], ◌∷◌,
  add64, ltb, ◌==◌, if◌then◌else◌, get_elem?, set, map,
}
use gabs.Base.Run.{Run, Cmd, ok, pure, crash, ◌>>=◌, ◌>>◌}

-- `struct gabs_timer_manual`; `linked` says that `ctx` points to the context, and is not NULL
pub record Timer : Type 0 where
  pub cb : ℕ
  pub user_arg : ℕ
  pub used : Bool
  pub active : Bool
  pub expiry_us : ℕ
  pub seq : ℕ
  pub linked : Bool

-- `struct gabs_timer_manual_ctx`
pub record Ctx : Type 0 where
  pub now_us : ℕ
  pub next_seq : ℕ
  pub timers : List Timer

-- The `int` that a function returns: 0, -EBUSY or -EINVAL.
pub data Status : Type 0 where
  success : Status
  ebusy : Status
  einval : Status

-- `memset(t, 0, sizeof(*t))`
abbrev pub cleared : Timer
cleared = record {
  cb = 0;
  user_arg = 0;
  used = false;
  active = false;
  expiry_us = 0;
  seq = 0;
  linked = false;
}

-- `*t`
pub timer_at : ℕ → Cmd Ctx Timer
timer_at t c = elim (get_elem? c.timers t) [ none ↦ crash c | some x ↦ ok x c ]

abbrev pub put_timer : ℕ → Timer → Cmd Ctx (Unit {0})
put_timer t x c = ok tt (record c { timers = set c.timers t x })

-- `gabs_timer_okay`, `none` for NULL
pub timer_okay : Option ℕ → Bool
timer_okay none = false
timer_okay (some t) = true

-- the condition under which `next_expired` takes `cur` in place of `next`
abbrev pub replaces : Timer → Option (ℕ × Timer) → Bool
replaces cur none = true
replaces cur (some (i, next)) =
    ltb cur.expiry_us next.expiry_us || ((cur.expiry_us == next.expiry_us) && ltb cur.seq next.seq)

-- one round of `next_expired`
abbrev pub pick : ℕ → ℕ → Timer → Option (ℕ × Timer) → Option (ℕ × Timer)
pick end_us i cur next =
    if not cur.used || (not cur.active || ltb end_us cur.expiry_us)
    then next
    else if replaces cur next
    then some (i, cur)
    else next

-- the loop of `next_expired`, from the index on
pub next_loop : ℕ → List Timer → ℕ → Option (ℕ × Timer) → Option (ℕ × Timer)
next_loop end_us [] i next = next
next_loop end_us (cur ∷ rest) i next = next_loop end_us rest (suc i) (pick end_us i cur next)

-- `next_expired`: the index of the timer, and the timer
pub next_expired : Ctx → ℕ → Option (ℕ × Timer)
unfolding next_loop
next_expired ctx end_us = next_loop end_us ctx.timers 0 none

-- `gabs_timer_ctx_init`, for an array of `n` timers
pub ctx_init : ℕ → Ctx
ctx_init n = record { now_us = 0; next_seq = 0; timers = zeros n }
  where
    zeros : ℕ → List Timer
    zeros zero = []
    zeros (suc k) = cleared ∷ zeros k

-- `gabs_timer_ctx_deinit`
pub ctx_deinit : Cmd Ctx Status
ctx_deinit c = ok success (record c { timers = map (λ _. cleared) c.timers })

-- one round of `gabs_timer_install`, at a timer that is used or not, before the rest of the loop
abbrev pub place : ℕ → ℕ → Timer → List Timer → Option ℕ × List Timer → Bool → Option ℕ × List Timer
place cb user_data t rest (none, rest') true = (none, t ∷ rest')
place cb user_data t rest (some i, rest') true = (some (suc i), t ∷ rest')
place cb user_data t rest later false =
    (some 0, record cleared { used = true; cb = cb; user_arg = user_data; linked = true } ∷ rest)

-- the loop of `gabs_timer_install`: the index found, and the array
pub install_loop : ℕ → ℕ → List Timer → Option ℕ × List Timer
install_loop cb user_data [] = (none, [])
install_loop cb user_data (t ∷ rest) =
    place cb user_data t rest (install_loop cb user_data rest) t.used

-- `gabs_timer_install`, `none` for NULL
pub install : ℕ → ℕ → Cmd Ctx (Option ℕ)
unfolding install_loop
install cb user_data c =
    let (found, timers) = install_loop cb user_data c.timers in
    ok found (record c { timers = timers })

-- `gabs_timer_uninstall`
pub uninstall : ℕ → Cmd Ctx Status
unfolding timer_at
uninstall t = do
  x ← timer_at t
  put_timer t (record x { active = false; used = false })
  pure success

-- `gabs_timer_restart`
pub restart : ℕ → ℕ → Cmd Ctx Status
unfolding timer_at
restart t delay_us c =
    (do
      x ← timer_at t
      if not x.linked then crash else λ _. ok success (record c {
        timers =
            set c.timers t
              (record x { active = true; expiry_us = add64 c.now_us delay_us; seq = c.next_seq });
        next_seq = add64 c.next_seq 1;
      }))
      c

-- `gabs_timer_start`
pub start : ℕ → ℕ → Cmd Ctx Status
unfolding timer_at restart
start t delay_us = do x ← timer_at t; if x.active then pure ebusy else restart t delay_us

-- `gabs_timer_stop`
pub stop : ℕ → Cmd Ctx Status
unfolding timer_at
stop t = do x ← timer_at t; put_timer t (record x { active = false }); pure success

-- `gabs_timer_active`
pub active : ℕ → Cmd Ctx Bool
unfolding timer_at
active t = do x ← timer_at t; pure x.active

-- `gabs_timer_manual_now`
pub now : Ctx → ℕ
now ctx = ctx.now_us

-- `count++` on an `int`, undefined at INT_MAX
pub increment : {S : Type 0} → ℕ → Cmd S ℕ
increment n = if ltb n (2 ^ 31 - 1) then pure (suc n) else crash

-- a call on the context alone, where the client has a state of its own
abbrev pub on_ctx : {W A : Type 0} → Cmd Ctx A → Cmd (W × Ctx) A
on_ctx m (w, c) = elim (m c) [
  | Run.ok a c' ↦ ok a (w, c')
  | Run.fault ↦ Run.fault
  | Run.out_of_fuel ↦ Run.out_of_fuel
]

-- What a callback does: `call cb t user_arg` may use the context and the client's own state `W`.
module _ {W : Type 0} (call : ℕ → ℕ → ℕ → Cmd (W × Ctx) (Unit {0})) where
  -- `timer_fire`
  pub timer_fire : ℕ → Cmd (W × Ctx) (Unit {0})
  unfolding timer_at
  timer_fire t = do
    x ← on_ctx (timer_at t)
    on_ctx (put_timer t (record x { active = false }))
    call x.cb t x.user_arg

  -- the loop of `gabs_timer_manual_advance`
  pub advance_loop : ℕ → ℕ → ℕ → Cmd (W × Ctx) ℕ
  unfolding next_expired timer_fire increment
  advance_loop zero end_us count s = Run.out_of_fuel
  advance_loop (suc k) end_us count (w, c) = elim (next_expired c end_us) [
    | none ↦ ok count (w, c)
    | some (t, x) ↦
        (do timer_fire t; count' ← increment count; advance_loop k end_us count')
          (w, record c { now_us = x.expiry_us })
  ]

  -- `gabs_timer_manual_advance`
  pub advance : ℕ → ℕ → Cmd (W × Ctx) ℕ
  unfolding advance_loop
  advance fuel us (w, c) =
      (do
        count ← advance_loop fuel (add64 c.now_us us) 0
        on_ctx (λ c'. ok tt (record c' { now_us = add64 c.now_us us }))
        pure count)
        (w, c)

  -- `gabs_timer_manual_fire`
  pub manual_fire : ℕ → Cmd (W × Ctx) Status
  unfolding timer_at timer_fire
  manual_fire t = do
    x ← on_ctx (timer_at t)
    if not x.active then pure einval else do timer_fire t; pure success
