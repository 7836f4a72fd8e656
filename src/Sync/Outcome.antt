-- ===== src/Sync/Outcome.antt =====
-- What `gabs_mutex_lock` and `gabs_sem_down` (mutex/posix, semaphore/posix) return, and how long they
-- wait.
use gabs.Base.{
  ℕ, zero, suc, ◌+◌, ◌-◌, ◌*◌, ◌<◌, ◌^◌, ◌≡◌, ◌≢◌, refl, ◌⊎◌, inl, inr, ◌==◌, ==-false_of_ne, arith,
  Bool-cases,
}
use gabs.Time.{Timespec, Clock, resolve}
use gabs.Time.Exact.{nanoseconds, resolve-exact, resolve-Clock, Resolved-shows}
use gabs.Sync.{
  ℤ, pos, negsuc, negated, negate_first, to_errno, MutexCalls, SemCalls, mutex_lock, sem_down,
}

module _ {S : Type 0} where
  -- A documented call returns 0 and has taken the lock, or returns an error number and has changed
  -- nothing.
  abbrev pub Tried : (S → Type 0) → S → ℕ × S → Type 0
  Tried Held s (n, s') = ((n ≡ 0) × Held s') ⊎ ((n ≢ 0) × (s' ≡ s))

  -- 0 is returned and the lock is taken, or a negative number and nothing has changed.
  abbrev pub Taken : (S → Type 0) → S → ℤ × S → Type 0
  Taken Held s (r, s') = ((r ≡ pos 0) × Held s') ⊎ ((k : ℕ) × (r ≡ negsuc k) × (s' ≡ s))

  Tried-Taken :
      (Held : S → Type 0) (s : S) (r : ℕ × S) → Tried Held s r → Taken Held s (negate_first r)
  Tried-Taken Held s (zero, s') (inl (e, held)) = inl (refl, held)
  Tried-Taken Held s (suc n, s') (inl (e, held)) = absurd (omega arith)
  Tried-Taken Held s (zero, s') (inr (ne, same)) = absurd (ne refl)
  Tried-Taken Held s (suc n, s') (inr (ne, same)) = inr (n, refl, same)

  -- The result of a wait with a deadline.
  abbrev by_deadline : MutexCalls S → S → Clock → ℤ × S
  by_deadline calls s (Clock.unread e) = (negated e, s)
  by_deadline calls s (Clock.shows deadline) = negate_first (calls.timedlock deadline s)

  by_deadline-Taken :
      (Held : S → Type 0) (calls : MutexCalls S) (s : S) (c : Clock)
      → ((t : Timespec) → Tried Held s (calls.timedlock t s))
      → ((e : ℕ) → c ≡ Clock.unread e → e ≢ 0)
      → Taken Held s (by_deadline calls s c)
  by_deadline-Taken Held calls s (Clock.unread zero) timed errno = absurd (errno 0 refl refl)
  by_deadline-Taken Held calls s (Clock.unread (suc e)) timed errno = inr (e, refl, refl)
  by_deadline-Taken Held calls s (Clock.shows t) timed errno =
      Tried-Taken Held s (calls.timedlock t s) (timed t)

  -- When each call of the system takes the mutex and returns 0, or returns an error number and changes
  -- nothing, so does `gabs_mutex_lock`, for every timeout, but the number is negative. An error of
  -- the clock is a number that is not 0.
  pub mutex_lock-Taken :
      (Held : S → Type 0) (calls : MutexCalls S) (timeout : ℕ) (s : S)
      → Tried Held s (calls.trylock s)
      → Tried Held s (calls.lock s)
      → ((t : Timespec) → Tried Held s (calls.timedlock t s))
      → ((e : ℕ) → calls.clock s ≡ Clock.unread e → e ≢ 0)
      → Taken Held s (mutex_lock calls timeout s)
  unfolding mutex_lock
  mutex_lock-Taken Held calls timeout s try wait timed errno = elim (Bool-cases (timeout == 0)) [
    | inl e ↦ rw e (Tried-Taken Held s (calls.trylock s) try)
    | inr e ↦ elim (Bool-cases (timeout == 2 ^ 64 - 1)) [
      | inl f ↦ rw (e, f) (Tried-Taken Held s (calls.lock s) wait)
      | inr f ↦
          rw (e, f)
            (by_deadline-Taken Held calls s (resolve (calls.clock s) timeout) timed
              λ n at. errno n (resolve-Clock (calls.clock s) timeout n at))
    ]
  ]

  -- With a timeout that is neither 0 nor the greatest, and whose nanoseconds do not overflow,
  -- `gabs_mutex_lock` and `gabs_sem_down` wait until a deadline that is a valid time, with less than a
  -- second of nanoseconds, and exactly the timeout after what the clock shows, a valid time as well.
  pub waits-deadline :
      (mutex : MutexCalls S) (sem : SemCalls S) (timeout : ℕ) (s : S) (now : Timespec)
      → mutex.clock s ≡ Clock.shows now
      → sem.clock s ≡ Clock.shows now
      → now.tv_nsec < 1000000000
      → timeout ≢ 0
      → timeout * 1000 < 2 ^ 64
      → (t : Timespec) × (t.tv_nsec < 1000000000)
        × (nanoseconds t ≡ nanoseconds now + timeout * 1000)
        × (mutex_lock mutex timeout s ≡ negate_first (mutex.timedlock t s))
        × (sem_down sem timeout s ≡ to_errno (sem.timedwait t s))
  unfolding mutex_lock sem_down
  waits-deadline mutex sem timeout s now m_at s_at valid some_us small =
      let (t, made, valid_t, exact) =
        Resolved-shows _ (resolve (Clock.shows now) timeout)
          (resolve-exact now timeout valid small) in
      (
        t,
        valid_t,
        exact,
        rw
            (
              ==-false_of_ne timeout 0 some_us,
              ==-false_of_ne timeout (2 ^ 64 - 1) (omega arith),
              m_at,
              made,
            )
            refl,
        rw
            (
              ==-false_of_ne timeout 0 some_us,
              ==-false_of_ne timeout (2 ^ 64 - 1) (omega arith),
              s_at,
              made,
            )
            refl,
      )
