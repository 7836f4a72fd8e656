-- ===== src/Sync/Examples.antt =====
-- A mutex that is free and a semaphore, and the theorems on mutex/posix and semaphore/posix at them.
use gabs.Base.{ℕ, ◌<◌, ◌+◌, ◌*◌, ◌≡◌, refl, Bool, true, false, arith, inl, if◌then◌else◌}
use gabs.Time.{Timespec, Clock}
use gabs.Time.Exact.{nanoseconds}
use gabs.Sync.{MutexCalls, SemCalls, Sys, negate_first, to_errno, mutex_lock, sem_down}
use gabs.Sync.Outcome.{Taken, mutex_lock-Taken, waits-deadline}

abbrev clock : Timespec
clock = record { tv_sec = 100; tv_nsec = 5 }

-- The state says whether the mutex is held; EBUSY is 16, ETIMEDOUT 110.
abbrev take : ℕ → Bool → ℕ × Bool
take e held = if held then (e, held) else (0, true)

abbrev mutex : MutexCalls Bool
mutex = record {
  trylock = take 16;
  lock = take 16;
  timedlock = λ t. take 110;
  unlock = λ held. (0, false);
  clock = λ held. Clock.shows clock;
}

abbrev sem : SemCalls Bool
sem = record {
  trywait = λ held. (Sys.failed 11, held);
  wait = λ held. (Sys.success, true);
  timedwait = λ t held. (Sys.success, true);
  post = λ held. (Sys.success, false);
  clock = λ held. Clock.shows clock;
}

mutex_lock-Taken_example : Taken (λ held. held ≡ true) false (mutex_lock mutex 300 false)
mutex_lock-Taken_example =
    mutex_lock-Taken (λ held. held ≡ true) mutex 300 false (inl (refl, refl)) (inl (refl, refl))
      (λ t. inl (refl, refl)) (λ e at. absurd (ground arith))

waits-deadline_example :
    (t : Timespec) × (t.tv_nsec < 1000000000)
    × (nanoseconds t ≡ nanoseconds clock + 300 * 1000)
    × (mutex_lock mutex 300 false ≡ negate_first (mutex.timedlock t false))
    × (sem_down sem 300 false ≡ to_errno (sem.timedwait t false))
waits-deadline_example =
    waits-deadline mutex sem 300 false clock refl refl (omega arith) (omega arith) (omega arith)
