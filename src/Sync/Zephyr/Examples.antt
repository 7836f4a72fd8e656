-- ===== src/Sync/Zephyr/Examples.antt =====
-- A mutex of Zephyr that is held elsewhere, and the theorem on mutex/zephyr at it.
use gabs.Base.{ℕ, ◌-◌, ◌^◌, ◌≡◌, ◌≢◌, ◌⊎◌, inr, refl, Bool, true, false}
use gabs.Sync.{ℤ, negsuc}
use gabs.Sync.Zephyr.{Timeout, Answered, mutex_lock, mutex_lock-Answered}

-- EBUSY is 16; waiting ends after the time.
abbrev held_elsewhere : Timeout → Bool → ℤ × Bool
held_elsewhere Timeout.no_wait s = (negsuc 15, s)
held_elsewhere Timeout.forever s = (negsuc 21, s)
held_elsewhere (Timeout.usec n) s = (negsuc 10, s)

abbrev wait_us : ℕ
wait_us = 300

mutex_lock-Answered_example :
    (t : Timeout) × ((wait_us ≡ 0) × (t ≡ Timeout.no_wait)
      ⊎ (wait_us ≡ 2 ^ 64 - 1) × (t ≡ Timeout.forever)
      ⊎ (wait_us ≢ 0) × (wait_us ≢ 2 ^ 64 - 1) × (t ≡ Timeout.usec wait_us))
    × Answered
        (λ held. held ≡ true)
        false
        (held_elsewhere t false)
        (mutex_lock held_elsewhere wait_us false)
mutex_lock-Answered_example =
    mutex_lock-Answered (λ held. held ≡ true) held_elsewhere wait_us false λ t. all t
  where
    all :
        (t : Timeout)
        → (((held_elsewhere t false).0 ≡ ℤ.pos 0) × ((held_elsewhere t false).1 ≡ true))
          ⊎ ((k : ℕ) × ((held_elsewhere t false).0 ≡ negsuc k)
              × ((held_elsewhere t false).1 ≡ false))
    all Timeout.no_wait = inr (15, refl, refl)
    all Timeout.forever = inr (21, refl, refl)
    all (Timeout.usec n) = inr (10, refl, refl)
