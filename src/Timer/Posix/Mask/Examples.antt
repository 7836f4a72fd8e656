-- ===== src/Timer/Posix/Mask/Examples.antt =====
-- The loops of timer/posix/atomic_mask.h at concrete words.
use gabs.Base.{◌≡◌, ◌≢◌, ◌⊎◌, refl, true, false, List, [], ◌∷◌}
use gabs.Timer.Posix.Mask.{
  Word, no_bits, bit_active, bit_sched, bit_or, bit_and, Attempt, mask_set, mask_set_strict,
  mask_clear, mask_cas,
}
use gabs.Timer.Posix.Mask.Outcome.{wrote}
use gabs.Timer.Posix.Mask.Atomic.{
  Effect, Finished, mask_cas-Effect, mask_cas-differs, masks-Finished,
}

-- A timer that is installed and scheduled.
abbrev scheduled : Word
scheduled = record no_bits { used = true; sched = true; alloc = true }

-- Between the attempts the timer is scheduled; the second attempt fails spuriously.
abbrev attempts : List Attempt
attempts =
    record { seen = record no_bits { used = true; alloc = true }; spurious = false }
    ∷ record { seen = scheduled; spurious = true }
    ∷ record { seen = scheduled; spurious = false }
    ∷ []

mask_cas-Effect_example :
    Effect
      (λ old new.
        (bit_and old bit_sched ≡ bit_sched)
        × ((new ≡ bit_or old bit_active) ⊎ ((old ≡ bit_sched) × (new ≡ bit_active))))
      (λ seen. bit_and seen bit_sched ≢ bit_sched)
      attempts
      (mask_cas bit_sched bit_active attempts)
mask_cas-Effect_example = mask_cas-Effect bit_sched bit_active attempts

mask_cas-differs_example :
    (mask_cas bit_sched bit_active (record { seen = bit_sched; spurious = false } ∷ [])
      ≡ wrote bit_sched bit_active)
    × (mask_cas bit_sched bit_active (
          record { seen = bit_sched; spurious = true }
          ∷ record { seen = bit_sched; spurious = false }
          ∷ [])
        ≡ wrote bit_sched (bit_or bit_sched bit_active))
mask_cas-differs_example = mask_cas-differs bit_sched bit_active

masks-Finished_example :
    Finished (mask_set bit_active attempts)
    × (Finished (mask_clear bit_active attempts)
        × (Finished (mask_set_strict bit_active attempts)
            × Finished (mask_cas bit_sched bit_active attempts)))
masks-Finished_example =
    masks-Finished bit_active bit_sched bit_active
      (record { seen = record no_bits { used = true; alloc = true }; spurious = false } ∷ [])
      (record { seen = scheduled; spurious = true }) (record { seen = scheduled; spurious = false })
      [] refl refl
