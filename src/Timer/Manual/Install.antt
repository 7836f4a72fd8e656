-- ===== src/Timer/Manual/Install.antt =====
-- `gabs_timer_install` (timer/manual/timer_manual.c) takes the first free place of the array.
use gabs.Base.{
  ℕ, zero, suc, ◌<◌, ◌≡◌, refl, ap, sym, ◌∙◌, Bool, true, false, Option, none, some, List, [], ◌∷◌,
  arith, get_elem?, set, none-ne-some, some-injective,
}
use gabs.Base.Run.{Ends, ends}
use gabs.Timer.Manual.{Timer, Ctx, cleared, place, install_loop, install}

-- What `gabs_timer_install` puts into its place: not active, and bound to the context.
abbrev pub installed : ℕ → ℕ → Timer
installed cb arg = record cleared { used = true; cb = cb; user_arg = arg; linked = true }

-- NULL, and nothing changed, when all places are used; else the first place that is not, which alone
-- has changed.
abbrev pub Placed : ℕ → ℕ → List Timer → Option ℕ × List Timer → Type 0
Placed cb arg ts (none, ts') =
    ((j : ℕ) (y : Timer) → get_elem? ts j ≡ some y → y.used ≡ true) × (ts' ≡ ts)
Placed cb arg ts (some i, ts') =
    (x : Timer) × (get_elem? ts i ≡ some x)
    × (x.used ≡ false)
    × ((j : ℕ) (y : Timer) → j < i → get_elem? ts j ≡ some y → y.used ≡ true)
    × (ts' ≡ set ts i (installed cb arg))

used-cons :
    (t : Timer) (ts : List Timer) (P : ℕ → Type 0)
    → t.used ≡ true
    → ((j : ℕ) (y : Timer) → P (suc j) → get_elem? ts j ≡ some y → y.used ≡ true)
    → (j : ℕ) (y : Timer) → P j
    → get_elem? (t ∷ ts) j ≡ some y
    → y.used ≡ true
used-cons t ts P busy all zero y p got =
    ap (λ (z : Timer). z.used) (sym (some-injective t y got)) ∙ busy
used-cons t ts P busy all (suc j) y p got = all j y p got

-- One round of the loop, at a timer that is used or not.
Placed-cons :
    (cb arg : ℕ) (t : Timer) (ts : List Timer) (r : Option ℕ × List Timer) (used : Bool)
    → t.used ≡ used
    → Placed cb arg ts r
    → Placed cb arg (t ∷ ts) (place cb arg t ts r used)
Placed-cons cb arg t ts (none, ts') true busy (all, same) = (
  λ j y got. used-cons t ts (λ _. Unit {0}) busy (λ k z _ got'. all k z got') j y tt got,
  ap (λ l. t ∷ l) same,
)
Placed-cons cb arg t ts (some i, ts') true busy (x, here, free, before, same) = (
  x,
  here,
  free,
  used-cons t ts (λ k. k < suc i) busy (λ k z h got'. before k z (omega arith) got'),
  ap (λ l. t ∷ l) same,
)
Placed-cons cb arg t ts r false free placed =
    (t, refl, free, λ j y h got. absurd (omega arith), refl)

pub install_loop-Placed : (cb arg : ℕ) (ts : List Timer) → Placed cb arg ts (install_loop cb arg ts)
unfolding install_loop
install_loop-Placed cb arg [] = (λ j y got. absurd (none-ne-some y got), refl)
install_loop-Placed cb arg (t ∷ ts) =
    Placed-cons cb arg t ts (install_loop cb arg ts) t.used refl (install_loop-Placed cb arg ts)

-- `gabs_timer_install` returns NULL and changes nothing when all timers of the context are used; else
-- it returns the first that is not, which is now used, stopped and has the given callback and
-- argument, and all else is as before.
pub install-Placed :
    (cb arg : ℕ) (c : Ctx)
    → Ends
        (λ r c'. Placed cb arg c.timers (r, c'.timers) × (c' ≡ record c { timers = c'.timers }))
        (install cb arg c)
unfolding install
install-Placed cb arg c = ends (install_loop-Placed cb arg c.timers, refl)
