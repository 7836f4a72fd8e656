-- ===== src/Timer/Manual/Trace.antt =====
-- The order in which `gabs_timer_manual_advance` (timer/manual/timer_manual.c) runs callbacks.
use gabs.Base.{
  ℕ, zero, suc, ◌+◌, ◌<◌, ◌^◌, ◌≡◌, ◌↔◌, ◌⊎◌, subst₂, Bool-cases, refl, ap, sym, subst, ◌∙◌, Bool,
  true, false, some, List, [], ◌∷◌, arith, get_elem?, set, length, add64, inl, inr, Option-cases,
  get_elem?-set, get_elem?-set_ne, if◌then◌else◌, some-injective, ℕ_discrete, Memᴰ,
}
use gabs.Base.Run.{Cmd, ok, Ends, ends, weaken, then-Ends}
use gabs.Timer.Manual.{Timer, Ctx, next_expired, advance_loop, advance}
use gabs.Timer.Manual.Next.{Due, NoLater, Earliest, next_expired-Earliest, passed, passed-Due}
use gabs.Timer.Manual.Count.{due_count, Due-passed, due_count-none, due_count-set}
use gabs.Timer.Manual.Advance.{increment_lem, stopped, stopped-not_Due, timer_fire_lem}

-- Timers by index, none of them to fire before one that stands earlier.
abbrev pub Sorted : List (ℕ × Timer) → Type 0
Sorted [] = Unit
Sorted ((i, x) ∷ evs) = ((j : ℕ) (y : Timer) → Memᴰ (j, y) evs → NoLater x y) × Sorted evs

-- The timers that are due, and no others.
abbrev pub Exactly : ℕ → List Timer → List (ℕ × Timer) → Type 0
Exactly end_us ts evs =
    (j : ℕ) (y : Timer) → Memᴰ (j, y) evs ↔ ((get_elem? ts j ≡ some y) × Due end_us y)

-- Every timer that is due is stopped.
abbrev pub settle : ℕ → List Timer → List Timer
settle end_us [] = []
settle end_us (y ∷ ts) = (if passed end_us y then y else stopped y) ∷ settle end_us ts

if_same : {A : Type 0} (b : Bool) (z : A) → (if b then z else z) ≡ z
if_same true z = refl
if_same false z = refl

settle-set :
    (end_us : ℕ) (ts : List Timer) (i : ℕ) (x : Timer)
    → get_elem? ts i ≡ some x
    → Due end_us x
    → settle end_us (set ts i (stopped x)) ≡ settle end_us ts
settle-set end_us [] i x got d = refl
settle-set end_us (y ∷ ts) zero x got d =
    let e = some-injective y x got in
    rw (ap (passed end_us) e ∙ Due-passed end_us x d) (
      ap (λ z. z ∷ settle end_us ts)
        (if_same (passed end_us (stopped x)) (stopped x) ∙ ap stopped (sym e)))
settle-set end_us (y ∷ ts) (suc i) x got d =
    ap (λ l. (if passed end_us y then y else stopped y) ∷ l) (settle-set end_us ts i x got d)

settle-none :
    (end_us : ℕ) (ts : List Timer)
    → ((j : ℕ) (y : Timer) → get_elem? ts j ≡ some y → ¬ Due end_us y)
    → settle end_us ts ≡ ts
settle-none end_us [] off = refl
settle-none end_us (y ∷ ts) off = elim (Bool-cases (passed end_us y)) [
  | inl e ↦ rw e (ap (λ l. y ∷ l) (settle-none end_us ts λ j z got. off (suc j) z got))
  | inr e ↦ absurd (off 0 y refl (passed-Due end_us y e))
]

no_member : {A : Type 0} {a : A} → Memᴰ a [] → ⊥
no_member m = elim m [ ]

member_cases : {A : Type 0} {a b : A} {l : List A} → Memᴰ a (b ∷ l) → (a ≡ b) ⊎ Memᴰ a l
member_cases (Memᴰ.head e) = inl e
member_cases (Memᴰ.tail m) = inr m

-- What is due after one timer is stopped was due before.
Exactly-old :
    (end_us : ℕ) (ts : List Timer) (i : ℕ) (x : Timer) (evs : List (ℕ × Timer))
    → Exactly end_us (set ts i (stopped x)) evs
    → (j : ℕ) (y : Timer) → Memᴰ (j, y) evs
    → (get_elem? ts j ≡ some y) × Due end_us y
Exactly-old end_us ts i x evs rest j y m =
    let (got, d) = (rest j y).0 m in
    elim (get_elem?-set ts i (stopped x) j got) [
      | inl (same, is) ↦ absurd (stopped-not_Due end_us x (subst (Due end_us) (sym is) d))
      | inr (ne, old) ↦ (old, d)
    ]

Exactly-cons :
    (end_us : ℕ) (ts : List Timer) (i : ℕ) (x : Timer) (evs : List (ℕ × Timer))
    → get_elem? ts i ≡ some x
    → Due end_us x
    → Exactly end_us (set ts i (stopped x)) evs
    → Exactly end_us ts ((i, x) ∷ evs)
Exactly-cons end_us ts i x evs got d rest j y = (
  λ m. elim (member_cases m) [
    | inl e ↦
        let at : j ≡ i = ap (λ (p : ℕ × Timer). p.0) e in
        let is : y ≡ x = ap (λ (p : ℕ × Timer). p.1) e in
        (
          subst₂ (λ k z. get_elem? ts k ≡ some z) (sym at) (sym is) got,
          subst (Due end_us) (sym is) d,
        )
    | inr m' ↦ Exactly-old end_us ts i x evs rest j y m'
  ],
  λ (old, due). elim (ℕ_discrete j i) [
    | yes at ↦
        let is : y ≡ x = some-injective y x (sym old ∙ ap (get_elem? ts) at ∙ got) in
        Memᴰ.head (ap (λ k. (k, y)) at ∙ ap (λ z. (i, z)) is)
    | no ne ↦ Memᴰ.tail ((rest j y).1 (get_elem?-set_ne ts i (stopped x) j ne ∙ old, due))
  ],
)

module _ {W : Type 0} (note : W → (cb t arg clock : ℕ) → W) where
  -- A callback that leaves the context alone; the client notes that it was run, and when.
  abbrev pub quiet : ℕ → ℕ → ℕ → Cmd (W × Ctx) (Unit {0})
  quiet cb t arg (w, c) = ok tt (note w cb t arg c.now_us, c)

  -- What the client has noted after these callbacks, each with the clock at its timer's expiry.
  abbrev pub replay : W → List (ℕ × Timer) → W
  replay w [] = w
  replay w ((i, x) ∷ evs) = replay (note w x.cb i x.user_arg x.expiry_us) evs

  -- The callbacks of the timers that are due ran, in order, one each, and were counted.
  abbrev pub Fired : ℕ → ℕ → W → Ctx → ℕ → W × Ctx → Type 0
  Fired end_us count w c n (w', c') =
      (evs : List (ℕ × Timer)) × Sorted evs
      × Exactly end_us c.timers evs
      × (length evs ≡ due_count end_us c.timers)
      × (n ≡ count + length evs)
      × (w' ≡ replay w evs)
      × (c'.timers ≡ settle end_us c.timers)
      × (c'.next_seq ≡ c.next_seq)

  advance_loop-Fired :
      (end_us k count : ℕ) (w : W) (c : Ctx)
      → due_count end_us c.timers < k
      → count + due_count end_us c.timers < 2 ^ 31
      → Ends (Fired end_us count w c) (advance_loop quiet k end_us count (w, c))
  unfolding advance_loop
  advance_loop-Fired end_us zero count w c fuel small = absurd (omega arith)
  advance_loop-Fired end_us (suc k) count w c fuel small =
      elim (Option-cases (next_expired c end_us)) [
        | inl e ↦
            let off = subst (Earliest end_us c.timers) e (next_expired-Earliest c end_us) in
            let zero_due = due_count-none end_us c.timers off in
            rw (e, advance_loop)
              (ends (
                [],
                tt,
                λ j y. (λ m. absurd (no_member m), λ p. absurd (off j y p.0 p.1)),
                sym zero_due,
                omega arith,
                refl,
                sym (settle-none end_us c.timers off),
                refl,
              ))
        | inr ((t, x), e) ↦
            let (here, due, first) =
              subst (Earliest end_us c.timers) e (next_expired-Earliest c end_us) in
            let c1 = record c { now_us = x.expiry_us } in
            let c2 = record c1 { timers = set c.timers t (stopped x) } in
            let w1 = note w x.cb t x.user_arg x.expiry_us in
            let less =
              due_count-set end_us c.timers t x (stopped x) here due (stopped-not_Due end_us x) in
            rw
              (
                e,
                advance_loop,
                timer_fire_lem quiet t x w c1 here,
                increment_lem {S = W × Ctx} count (w1, c2) (omega arith),
              )
              (weaken (advance_loop-Fired end_us k (suc count) w1 c2 (omega arith) (omega arith))
                λ n (w', c') (evs, sorted, exactly, number, counted, noted, stops, seqs). (
                  (t, x) ∷ evs,
                  (
                    λ j y m.
                        let (old, d) = Exactly-old end_us c.timers t x evs exactly j y m in
                        first j y old d,
                    sorted,
                  ),
                  Exactly-cons end_us c.timers t x evs here due exactly,
                  omega arith,
                  omega arith,
                  noted,
                  stops ∙ settle-set end_us c.timers t x here due,
                  seqs,
                ))
      ]

  -- With callbacks that leave the context alone, `gabs_timer_manual_advance` runs the callback of
  -- every timer that is due by the end, once and of no other, in the order of expiry and, for the
  -- same expiry, of the start; each runs with the clock at its timer's expiry. It returns their
  -- number, stops exactly these timers, and leaves the clock at the end, which is the old time plus
  -- `us`, modulo 2 ^ 64. There are more rounds than timers due, and fewer of them than 2 ^ 31.
  pub advance-Fired :
      (fuel us : ℕ) (w : W) (c : Ctx)
      → due_count (add64 c.now_us us) c.timers < fuel
      → due_count (add64 c.now_us us) c.timers < 2 ^ 31
      → Ends
          (λ n s. Fired (add64 c.now_us us) 0 w c n s × (s.1.now_us ≡ add64 c.now_us us))
          (advance quiet fuel us (w, c))
  unfolding advance
  advance-Fired fuel us w c enough small =
      then-Ends (advance_loop-Fired (add64 c.now_us us) fuel 0 w c enough (omega arith))
        λ n s fired. ends (fired, refl)
