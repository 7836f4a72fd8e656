-- ===== src/Timer/Manual/Next.antt =====
-- `next_expired` (timer/manual/timer_manual.c) finds the timer that is due first.
use gabs.Base.{
  ℕ, suc, ◌≤◌, ◌<◌, ◌≡◌, refl, sym, subst, subst₂, ◌⊎◌, inl, inr, Bool, true, false, not, ◌||◌,
  Option, none, some, List, [], ◌∷◌, ◌++◌, append-nil, append_assoc, arith, get_elem?, length, ltb,
  Bool-cases, length-append, get_elem?-snoc, get_elem?-left, get_elem?-end, none-ne-some,
}
use gabs.Timer.Manual.{Timer, Ctx, pick, replaces, next_loop, next_expired}

-- The timer is to fire when the clock is moved to `end_us`.
abbrev pub Due : ℕ → Timer → Type 0
Due end_us y = (y.used ≡ true) × (y.active ≡ true) × (y.expiry_us ≤ end_us)

-- The one timer expires first, or both at the same time and it was not started later.
abbrev pub NoLater : Timer → Timer → Type 0
NoLater x y = (x.expiry_us < y.expiry_us) ⊎ ((x.expiry_us ≡ y.expiry_us) × (x.seq ≤ y.seq))

-- No timer of the array is due, or this one is, and no later than any that is due.
abbrev pub Earliest : ℕ → List Timer → Option (ℕ × Timer) → Type 0
Earliest end_us ts none = (j : ℕ) (y : Timer) → get_elem? ts j ≡ some y → ¬ Due end_us y
Earliest end_us ts (some (i, x)) =
    (get_elem? ts i ≡ some x)
    × Due end_us x
    × ((j : ℕ) (y : Timer) → get_elem? ts j ≡ some y → Due end_us y → NoLater x y)

-- The condition of `next_expired` that passes over a timer.
abbrev pub passed : ℕ → Timer → Bool
passed end_us y = not y.used || (not y.active || ltb end_us y.expiry_us)

pub passed-Due : (end_us : ℕ) (y : Timer) → (passed end_us y ≡ false) → Due end_us y
passed-Due end_us y e = ground arith

pub passed-not_Due : (end_us : ℕ) (y : Timer) → (passed end_us y ≡ true) → ¬ Due end_us y
passed-not_Due end_us y e (used, active, by) = ground arith

NoLater-trans : (x y z : Timer) → NoLater x y → NoLater y z → NoLater x z
NoLater-trans x y z a b = ground arith

replaces-NoLater : (i : ℕ) (x y : Timer) → replaces x (some (i, y)) ≡ true → NoLater x y
replaces-NoLater i x y e = ground arith

not-replaces-NoLater : (i : ℕ) (x y : Timer) → replaces x (some (i, y)) ≡ false → NoLater y x
not-replaces-NoLater i x y e = ground arith

-- A timer comes first if it does so in the array before and against the timer behind.
NoLater-snoc :
    (end_us : ℕ) (pre : List Timer) (x z : Timer)
    → ((j : ℕ) (y : Timer) → get_elem? pre j ≡ some y → Due end_us y → NoLater z y)
    → (Due end_us x → NoLater z x)
    → (j : ℕ) (y : Timer) → get_elem? (pre ++ x ∷ []) j ≡ some y
    → Due end_us y
    → NoLater z y
NoLater-snoc end_us pre x z old new j y got d = elim (get_elem?-snoc pre x j got) [
  | inl before ↦ old j y before d
  | inr same ↦ subst (NoLater z) same (new (subst (Due end_us) (sym same) d))
]

pick-Earliest :
    (end_us : ℕ) (pre : List Timer) (x : Timer) (next : Option (ℕ × Timer))
    → Earliest end_us pre next
    → Earliest end_us (pre ++ x ∷ []) (pick end_us (length pre) x next)
pick-Earliest end_us pre x none best = elim (Bool-cases (passed end_us x)) [
  | inl e ↦ rw e λ j y got d. elim (get_elem?-snoc pre x j got) [
    | inl before ↦ best j y before d
    | inr same ↦ passed-not_Due end_us x e (subst (Due end_us) (sym same) d)
  ]
  | inr e ↦ rw e (
    get_elem?-end pre x,
    passed-Due end_us x e,
    NoLater-snoc end_us pre x x (λ j y got d. absurd (best j y got d)) λ d. inr (refl, omega arith),
  )
]
pick-Earliest end_us pre x (some (i, y)) (here, due, first) = elim (Bool-cases (passed end_us x)) [
  | inl e ↦ rw e (
    get_elem?-left pre x i here,
    due,
    NoLater-snoc end_us pre x y first λ d. absurd (passed-not_Due end_us x e d),
  )
  | inr e ↦ elim (Bool-cases (replaces x (some (i, y)))) [
    | inl before ↦
        rw (e, before)
          (
            get_elem?-end pre x,
            passed-Due end_us x e,
            NoLater-snoc end_us pre x x
                (λ j z got d. NoLater-trans x y z (replaces-NoLater i x y before) (first j z got d))
                λ d. inr (refl, omega arith),
          )
    | inr behind ↦
        rw (e, behind)
          (
            get_elem?-left pre x i here,
            due,
            NoLater-snoc end_us pre x y first λ d. not-replaces-NoLater i x y behind,
          )
  ]
]

next_loop-Earliest :
    (end_us : ℕ) (pre ts : List Timer) (next : Option (ℕ × Timer))
    → Earliest end_us pre next
    → Earliest end_us (pre ++ ts) (next_loop end_us ts (length pre) next)
unfolding next_loop
next_loop-Earliest end_us pre [] next best =
    subst (λ l. Earliest end_us l next) (sym (append-nil pre)) best
next_loop-Earliest end_us pre (x ∷ ts) next best =
    let len : length (pre ++ x ∷ []) ≡ suc (length pre) =
      omega (arith, length-append pre (x ∷ [])) in
    let best' = pick-Earliest end_us pre x next best in
    subst₂ (λ l k. Earliest end_us l (next_loop end_us ts k (pick end_us (length pre) x next)))
      (append_assoc pre (x ∷ []) ts) len
      (next_loop-Earliest end_us (pre ++ x ∷ []) ts (pick end_us (length pre) x next) best')

-- `next_expired` returns NULL when no timer is due, and else a timer that is due and that expires
-- first among those that are; of those that expire at the same time, the one started first.
pub next_expired-Earliest :
    (ctx : Ctx) (end_us : ℕ) → Earliest end_us ctx.timers (next_expired ctx end_us)
unfolding next_expired
next_expired-Earliest ctx end_us =
    next_loop-Earliest end_us [] ctx.timers none λ j y e d. none-ne-some y e
