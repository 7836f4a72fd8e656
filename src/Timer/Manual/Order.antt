-- ===== src/Timer/Manual/Order.antt =====
-- The order of manual timers is total, and a timer that is started comes last among those of its
-- time (timer/manual/timer_manual.c).
use gabs.Base.{
  ℕ, ◌+◌, ◌≤◌, ◌<◌, ◌^◌, ◌≡◌, ◌≢◌, ◌↔◌, refl, ap, ap₂, sym, ◌∙◌, subst, some-injective,
  Option-cases, true, some, List, arith, get_elem?, add64, inl, inr, get_elem?-set,
  get_elem?-set_same, ℕ_discrete,
}
use gabs.Base.Run.{Ends, ends}
use gabs.Timer.Manual.{Timer, Ctx, next_expired, restart}
use gabs.Timer.Manual.Next.{Due, NoLater, Earliest, next_expired-Earliest}
use gabs.Timer.Manual.Advance.{timer_at_lem}
use gabs.Timer.Manual.Ops.{Wf, unless}

-- Under the invariant of a context, only one timer is the first that is due.
Earliest-unique :
    (n end_us : ℕ) (ts : List Timer) (i j : ℕ) (x y : Timer)
    → Wf n ts
    → Earliest end_us ts (some (i, x))
    → Earliest end_us ts (some (j, y))
    → i ≡ j
Earliest-unique n end_us ts i j x y wf (herex, duex, firstx) (herey, duey, firsty) =
    elim (ℕ_discrete i j) [
      | yes e ↦ e
      | no ne ↦
          let xy = firstx j y herey duey in
          let yx = firsty i x herex duex in
          let apart = wf.apart i j x y ne herex herey duex.1 duey.1 in absurd (ground arith)
    ]

-- Under the invariant of a context, `next_expired` returns any timer that is due and no later than all
-- that are: there is at most one.
pub next_expired_complete :
    (c : Ctx) (end_us j : ℕ) (y : Timer)
    → Wf c.next_seq c.timers
    → Earliest end_us c.timers (some (j, y))
    → next_expired c end_us ≡ some (j, y)
next_expired_complete c end_us j y wf best = elim (Option-cases (next_expired c end_us)) [
  | inl e ↦
      absurd (subst (Earliest end_us c.timers) e (next_expired-Earliest c end_us) j y best.0 best.1)
  | inr ((i, x), e) ↦
      let found = subst (Earliest end_us c.timers) e (next_expired-Earliest c end_us) in
      let at = Earliest-unique c.next_seq end_us c.timers i j x y wf found best in
      let is : x ≡ y = some-injective x y (sym found.0 ∙ ap (get_elem? c.timers) at ∙ best.0) in
      e ∙ ap₂ (λ k z. some (k, z)) at is
]

-- After a restart the timer is due by a time just when the delay has passed by then, and it comes
-- behind every running timer that expires at the same time or before.
abbrev pub Queued : ℕ → ℕ → Ctx → Ctx → Type 0
Queued t delay_us c c' =
    (x : Timer) × (get_elem? c'.timers t ≡ some x)
    × ((end_us : ℕ) → Due end_us x ↔ (c.now_us + delay_us ≤ end_us))
    × ((j : ℕ) (y : Timer)
        → j ≢ t
        → get_elem? c'.timers j ≡ some y
        → y.active ≡ true
        → y.expiry_us ≤ c.now_us + delay_us
        → NoLater y x)

-- `gabs_timer_restart` of a timer that is installed succeeds: the timer is due by a time just when
-- the delay has passed by then, and it comes behind every other running timer that expires at the
-- same time or before. The invariant of the context holds, and the expiry does not wrap around.
pub restart-Queued :
    (c : Ctx) (t delay_us : ℕ) (x : Timer)
    → Wf c.next_seq c.timers
    → get_elem? c.timers t ≡ some x
    → x.used ≡ true
    → c.now_us + delay_us < 2 ^ 64
    → Ends (λ r c'. Queued t delay_us c c') (restart t delay_us c)
unfolding restart
restart-Queued c t delay_us x wf got used small =
    let x' = record x { active = true; expiry_us = add64 c.now_us delay_us; seq = c.next_seq } in
    rw (timer_at_lem t x c got, unless x.linked _ _ (wf.linked t x got used))
      (ends (
        x',
        get_elem?-set_same c.timers t x' got,
        λ end_us. (λ (u, a, by). omega arith, λ by. (used, refl, omega arith)),
        λ j y ne at on by. elim (get_elem?-set c.timers t x' j at) [
          | inl (same, is) ↦ absurd (ne same)
          | inr (other, old) ↦ let less = wf.below j y old on in ground arith
        ],
      ))
