-- ===== src/Sync/Zephyr.antt =====
-- Zephyr mutexes and semaphores (mutex/zephyr, semaphore/zephyr, contrib/zephyr/zephyr_timediff.h).
-- The kernel's calls are parameters, on a state `S` of the system.
mod Examples
use gabs.Base.{
  ℕ, suc, zero, ◌-◌, ◌^◌, ◌≡◌, ◌≢◌, ◌⊎◌, inl, inr, refl, Bool, true, false, ◌==◌, if◌then◌else◌,
  arith, Bool-cases, ==-false_of_ne,
}
use gabs.Sync.{ℤ, pos, negsuc, negated}

-- `k_timeout_t`
pub data Timeout : Type 0 where
  no_wait : Timeout
  forever : Timeout
  usec : ℕ → Timeout

-- `zephyr_timediff_resolve`; GABS_TIMEOUT_MAX is UINT64_MAX
pub timediff_resolve : ℕ → Timeout
timediff_resolve timeout_us =
    if timeout_us == 0
    then Timeout.no_wait
    else if timeout_us == 2 ^ 64 - 1
    then Timeout.forever
    else Timeout.usec timeout_us

-- Error numbers of Zephyr.
abbrev pub eagain : ℕ
eagain = 11

abbrev pub etimedout : ℕ
etimedout = 116

-- `status == -EAGAIN`
abbrev pub is_eagain : ℤ → Bool
is_eagain (pos n) = false
is_eagain (negsuc n) = n == eagain - 1

module _ {S : Type 0} where
  -- `gabs_mutex_lock` over `sys_mutex_lock`
  pub mutex_lock : (Timeout → S → ℤ × S) → ℕ → S → ℤ × S
  unfolding timediff_resolve
  mutex_lock sys_mutex_lock timeout_us s =
      let (status, s') = sys_mutex_lock (timediff_resolve timeout_us) s in
      if is_eagain status then (negated etimedout, s') else (status, s')

  -- `gabs_mutex_init` and `gabs_mutex_deinit`
  pub mutex_init : (S → S) → S → ℤ × S
  mutex_init sys_mutex_init s = (pos 0, sys_mutex_init s)

  pub mutex_deinit : S → ℤ × S
  mutex_deinit s = (pos 0, s)

  -- `gabs_mutex_unlock`
  pub mutex_unlock : (S → ℤ × S) → S → ℤ × S
  mutex_unlock sys_mutex_unlock s = sys_mutex_unlock s

  -- `gabs_sem_down` over `sys_sem_take`
  pub sem_down : (Timeout → S → ℤ × S) → ℕ → S → ℤ × S
  unfolding timediff_resolve
  sem_down sys_sem_take timeout_us s = sys_sem_take (timediff_resolve timeout_us) s

  -- `gabs_sem_up` over `sys_sem_give`
  pub sem_up : (S → ℤ × S) → S → ℤ × S
  sem_up sys_sem_give s = sys_sem_give s

  -- `gabs_sem_init` over `sys_sem_init`, with K_SEM_MAX_LIMIT
  pub sem_init : (ℕ → ℕ → S → ℤ × S) → ℕ → ℕ → S → ℤ × S
  sem_init sys_sem_init limit initial s = sys_sem_init initial limit s

  -- `gabs_sem_deinit`
  pub sem_deinit : S → ℤ × S
  sem_deinit s = (pos 0, s)

  -- What a call of `sys_mutex_lock` may do: take the mutex and return 0, return -EAGAIN when the time
  -- is over, or return another negative number; it changes nothing then.
  abbrev pub Locks : (S → Type 0) → S → ℤ × S → Type 0
  Locks Held s (r, s') = ((r ≡ pos 0) × Held s') ⊎ ((k : ℕ) × (r ≡ negsuc k) × (s' ≡ s))

  -- 0 and the mutex is held, or an error number of the interface, which -EAGAIN is not, and nothing
  -- has changed; -ETIMEDOUT stands for both numbers of the kernel.
  abbrev pub Answered : (S → Type 0) → S → (kernel given : ℤ × S) → Type 0
  Answered Held s (status, _) (r, s') =
      ((status ≡ pos 0) × (r ≡ pos 0) × Held s')
      ⊎ ((s' ≡ s) × (status ≡ negsuc (eagain - 1)) × (r ≡ negsuc (etimedout - 1)))
      ⊎ ((k : ℕ) × (s' ≡ s) × (status ≡ negsuc k) × (k ≢ eagain - 1) × (r ≡ negsuc k))

  Locks-Answered :
      (Held : S → Type 0) (s : S) (r : ℤ × S)
      → Locks Held s r
      → Answered Held s r (if is_eagain r.0 then (negated etimedout, r.1) else (r.0, r.1))
  Locks-Answered Held s (pos n, s') (inl (e, held)) = inl (e, e, held)
  Locks-Answered Held s (negsuc n, s') (inl (e, held)) = absurd (ground arith)
  Locks-Answered Held s (pos n, s') (inr (k, e, same)) = absurd (ground arith)
  Locks-Answered Held s (negsuc n, s') (inr (k, e, same)) = elim (Bool-cases (n == eagain - 1)) [
    | inl again ↦ rw again (inr (inl (same, ground arith, refl)))
    | inr other ↦ rw other (inr (inr (n, same, refl, ground arith, refl)))
  ]

  -- `gabs_mutex_lock` waits not at all for the timeout 0, without end for the greatest, and else that
  -- many microseconds; it returns 0 exactly when it has taken the mutex, -ETIMEDOUT in place of the
  -- kernel's -EAGAIN, and any other error as it is, and on an error nothing has changed. The kernel's
  -- call takes the mutex and returns 0, or changes nothing and returns a negative number.
  pub mutex_lock-Answered :
      (Held : S → Type 0) (sys_mutex_lock : Timeout → S → ℤ × S) (timeout_us : ℕ) (s : S)
      → ((t : Timeout) → Locks Held s (sys_mutex_lock t s))
      → (t : Timeout) × ((timeout_us ≡ 0) × (t ≡ Timeout.no_wait)
          ⊎ (timeout_us ≡ 2 ^ 64 - 1) × (t ≡ Timeout.forever)
          ⊎ (timeout_us ≢ 0) × (timeout_us ≢ 2 ^ 64 - 1) × (t ≡ Timeout.usec timeout_us))
        × Answered Held s (sys_mutex_lock t s) (mutex_lock sys_mutex_lock timeout_us s)
  unfolding mutex_lock
  mutex_lock-Answered Held sys_mutex_lock timeout_us s locks = elim (Bool-cases (timeout_us == 0)) [
    | inl e ↦ (Timeout.no_wait, inl (ground arith, refl), rw e (Locks-Answered Held s _ (locks _)))
    | inr e ↦ elim (Bool-cases (timeout_us == 2 ^ 64 - 1)) [
      | inl f ↦ (
        Timeout.forever,
        inr (inl (ground arith, refl)),
        rw (e, f) (Locks-Answered Held s _ (locks _)),
      )
      | inr f ↦ (
        Timeout.usec timeout_us,
        inr (inr (ground arith, ground arith, refl)),
        rw (e, f) (Locks-Answered Held s _ (locks _)),
      )
    ]
  ]
