-- ===== src/Sync.antt =====
-- POSIX mutexes and semaphores (mutex/posix, semaphore/posix). The calls of the system are
-- parameters, on a state `S` of the system.
pub mod Outcome
pub mod Zephyr
mod Examples
use gabs.Base.{ℕ, zero, suc, ◌-◌, ◌^◌, ◌==◌, if◌then◌else◌}
use gabs.Time.{Timespec, Clock, resolve}

-- the integers that the functions return
pub data ℤ : Type 0 where
  pos : ℕ → ℤ
  negsuc : ℕ → ℤ

abbrev pub negated : ℕ → ℤ
negated zero = pos 0
negated (suc n) = negsuc n

-- What the client of a `pthread_mutex_t` calls. Each returns an error number, 0 for success.
pub record MutexCalls (S : Type 0) : Type 0 where
  pub trylock : S → ℕ × S
  pub lock : S → ℕ × S
  pub timedlock : Timespec → S → ℕ × S
  pub unlock : S → ℕ × S
  pub clock : S → Clock

-- What a call of a `sem_t` does: it returns 0, or -1 with `errno`.
pub data Sys : Type 0 where
  success : Sys
  failed : ℕ → Sys

pub record SemCalls (S : Type 0) : Type 0 where
  pub trywait : S → Sys × S
  pub wait : S → Sys × S
  pub timedwait : Timespec → S → Sys × S
  pub post : S → Sys × S
  pub clock : S → Clock

abbrev pub negate_first : {S : Type 0} → ℕ × S → ℤ × S
negate_first (n, s) = (negated n, s)

-- `to_errno`
abbrev pub to_errno : {S : Type 0} → Sys × S → ℤ × S
to_errno (Sys.success, s) = (pos 0, s)
to_errno (Sys.failed e, s) = (negated e, s)

-- the minus sign before a call of a semaphore: -1 gives 1
abbrev pub negate_sys : {S : Type 0} → Sys × S → ℤ × S
negate_sys (Sys.success, s) = (pos 0, s)
negate_sys (Sys.failed e, s) = (pos 1, s)

module _ {S : Type 0} where
  -- `gabs_mutex_lock`; GABS_TIMEOUT_MAX is UINT64_MAX
  pub mutex_lock : MutexCalls S → ℕ → S → ℤ × S
  mutex_lock calls timeout s =
      if timeout == 0
      then negate_first (calls.trylock s)
      else if timeout == 2 ^ 64 - 1
      then negate_first (calls.lock s)
      else elim (resolve (calls.clock s) timeout) [
        | Clock.unread e ↦ (negated e, s)
        | Clock.shows deadline ↦ negate_first (calls.timedlock deadline s)
      ]

  -- `gabs_mutex_unlock`
  pub mutex_unlock : MutexCalls S → S → ℤ × S
  mutex_unlock calls s = negate_first (calls.unlock s)

  -- `gabs_sem_down`
  pub sem_down : SemCalls S → ℕ → S → ℤ × S
  sem_down calls timeout s =
      if timeout == 0
      then to_errno (calls.trywait s)
      else if timeout == 2 ^ 64 - 1
      then to_errno (calls.wait s)
      else elim (resolve (calls.clock s) timeout) [
        | Clock.unread e ↦ (negated e, s)
        | Clock.shows deadline ↦ to_errno (calls.timedwait deadline s)
      ]

  -- `gabs_sem_up`
  pub sem_up : SemCalls S → S → ℤ × S
  sem_up calls s = negate_sys (calls.post s)
