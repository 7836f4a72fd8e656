-- ===== src/Timer/Posix/Mask/Alone.antt =====
-- What the functions of timer/posix/atomic_mask.h do to a word that nobody else writes meanwhile.
use gabs.Base.{◌≡◌, Bool, true, false, List, [], ◌∷◌, if◌then◌else◌, arith}
use gabs.Timer.Posix.Mask.{
  Word, Attempt, Outcome, wrote, refused, unfinished, bit_or, bit_clear, bit_used, bit_zombie,
  bit_active, bit_sched, bit_alloc, mask_set, mask_set_strict, mask_clear, mask_cas, mask_test,
  mask_get, retry,
}

-- The word after a loop, and its result.
abbrev pub outcome : Word → Outcome → Word × Bool
outcome w (wrote old new) = (new, true)
outcome w (refused seen) = (w, false)
outcome w unfinished = (w, false)

-- The word stays as it is between the attempts, of which two are enough.
abbrev pub alone : (List Attempt → Outcome) → Word → Word × Bool
alone op w =
    outcome w
      (op (record { seen = w; spurious = false } ∷ record { seen = w; spurious = false } ∷ []))

pub mask_set-alone : (mask w : Word) → alone (mask_set mask) w ≡ (bit_or w mask, true)
unfolding mask_set retry
mask_set-alone mask w = ground arith

pub mask_test-used : (w : Word) → mask_test w bit_used ≡ w.used
unfolding mask_test mask_get
mask_test-used w = ground arith

pub mask_test-zombie : (w : Word) → mask_test w bit_zombie ≡ w.zombie
unfolding mask_test mask_get
mask_test-zombie w = ground arith

pub mask_test-active : (w : Word) → mask_test w bit_active ≡ w.active
unfolding mask_test mask_get
mask_test-active w = ground arith

pub mask_clear-alone : (mask w : Word) → alone (mask_clear mask) w ≡ (bit_clear w mask, true)
unfolding mask_clear retry
mask_clear-alone mask w = ground arith

pub mask_set_strict-alone :
    (w : Word)
    → alone (mask_set_strict bit_alloc) w
      ≡ (if w.alloc then (w, false) else (bit_or w bit_alloc, true))
unfolding mask_set_strict retry
mask_set_strict-alone w = ground arith

-- A word with another bit beside the one that is compared.
pub mask_cas-alone :
    (w : Word)
    → w.used ≡ true
    → alone (mask_cas bit_sched bit_active) w
      ≡ (if w.sched then (bit_or w bit_active, true) else (w, false))
unfolding mask_cas retry
mask_cas-alone w used = ground arith
