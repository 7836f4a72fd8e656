-- ===== src/Timer/Manual/Count.antt =====
-- The number of timers that are due, by which the loop of `gabs_timer_manual_advance` is bounded.
use gabs.Base.{
  ℕ, zero, suc, ◌+◌, ◌≤◌, ◌≡◌, refl, ap, ◌∙◌, false, some, List, [], ◌∷◌, arith, get_elem?, set,
  if◌then◌else◌, Bool-cases, inl, inr, none-ne-some, some-injective,
}
use gabs.Timer.Manual.{Timer}
use gabs.Timer.Manual.Next.{Due, passed, passed-Due, passed-not_Due}

abbrev pub due_count : ℕ → List Timer → ℕ
due_count end_us [] = 0
due_count end_us (y ∷ ts) = (if passed end_us y then 0 else 1) + due_count end_us ts

-- Every timer that is due in the second array is in the first, at the same place.
abbrev pub Within : ℕ → List Timer → List Timer → Type 0
Within end_us ts ts' =
    (j : ℕ) (y : Timer) → get_elem? ts' j ≡ some y → Due end_us y → get_elem? ts j ≡ some y

pub Due-passed : (end_us : ℕ) (y : Timer) → Due end_us y → passed end_us y ≡ false
Due-passed end_us y d = elim (Bool-cases (passed end_us y)) [
  | inl e ↦ absurd (passed-not_Due end_us y e d)
  | inr e ↦ e
]

pub due_count-Within :
    (end_us : ℕ) (ts ts' : List Timer)
    → Within end_us ts ts'
    → due_count end_us ts' ≤ due_count end_us ts
due_count-Within end_us ts [] within = omega arith
due_count-Within end_us [] (y ∷ ts') within = elim (Bool-cases (passed end_us y)) [
  | inl e ↦ rw e (omega (arith, due_count-Within end_us [] ts' λ j z got d. within (suc j) z got d))
  | inr e ↦ absurd (none-ne-some y (within 0 y refl (passed-Due end_us y e)))
]
due_count-Within end_us (x ∷ ts) (y ∷ ts') within =
    let rest = due_count-Within end_us ts ts' λ j z got d. within (suc j) z got d in
    elim (Bool-cases (passed end_us y)) [
      | inl e ↦ rw e (omega (arith, rest))
      | inr e ↦
          let same = some-injective x y (within 0 y refl (passed-Due end_us y e)) in
          rw (e, ap (passed end_us) same ∙ e) (omega (arith, rest))
    ]

pub due_count-set :
    (end_us : ℕ) (ts : List Timer) (i : ℕ) (x x' : Timer)
    → get_elem? ts i ≡ some x
    → Due end_us x
    → ¬ Due end_us x'
    → due_count end_us ts ≡ suc (due_count end_us (set ts i x'))
due_count-set end_us [] i x x' got d off = absurd (none-ne-some x got)
due_count-set end_us (y ∷ ts) zero x x' got d off = elim (Bool-cases (passed end_us x')) [
  | inl e ↦
      rw (ap (passed end_us) (some-injective y x got) ∙ Due-passed end_us x d, e) (omega arith)
  | inr e ↦ absurd (off (passed-Due end_us x' e))
]
due_count-set end_us (y ∷ ts) (suc i) x x' got d off =
    omega (arith, due_count-set end_us ts i x x' got d off)

-- No timer is due when the number is 0, and conversely.
pub due_count-none :
    (end_us : ℕ) (ts : List Timer)
    → ((j : ℕ) (y : Timer) → get_elem? ts j ≡ some y → ¬ Due end_us y)
    → due_count end_us ts ≡ 0
due_count-none end_us [] none_due = refl
due_count-none end_us (y ∷ ts) none_due = elim (Bool-cases (passed end_us y)) [
  | inl e ↦ rw e (omega (arith, due_count-none end_us ts λ j z got. none_due (suc j) z got))
  | inr e ↦ absurd (none_due 0 y refl (passed-Due end_us y e))
]
