-- ===== src/Timer/Kernel.antt =====
-- What timer/zephyr/timer_zephyr.c uses of Zephyr's kernel, which is not part of the repository: the
-- bit array of the pool, lists of nodes, mutexes and delayable work items. A timer is its index in
-- the pool, which also stands for its work item and its node; a context is its address.
pub mod Plain
use gabs.Base.{
  ℕ, ◌≡◌, ◌≢◌, ◌<◌, ◌⊎◌, Bool, true, false, ◌||◌, Option, none, some, List, [], ◌∷◌, ◌++◌, ◌==◌,
  if◌then◌else◌,
}

-- The flags of `k_work_busy_get`, without their prefix K_WORK_.
pub record Busy : Type 0 where
  pub running : Bool
  pub canceling : Bool
  pub queued : Bool
  pub delayed : Bool
  pub flushing : Bool

abbrev pub idle : Busy
idle = record {
  running = false;
  canceling = false;
  queued = false;
  delayed = false;
  flushing = false;
}

-- `k_timeout_t`, of K_TICKS and K_USEC
pub data Delay : Type 0 where
  ticks : ℕ → Delay
  usec : ℕ → Delay

-- The calls. A status is given by whether it is 0 or more.
pub record Calls (K : Type 0) : Type 0 where
  pub bitarray_alloc : K → Option ℕ × K
  pub bitarray_free : ℕ → K → Bool × K
  pub dlist_init : ℕ → K → K
  pub dlist_append : ℕ → ℕ → K → K
  pub dlist_remove : ℕ → K → K
  pub dlist_peek_head : ℕ → K → Option ℕ
  pub dlist_peek_next : ℕ → ℕ → K → Option ℕ
  pub mutex_init : ℕ → K → K
  pub mutex_lock : ℕ → K → K
  pub mutex_unlock : ℕ → K → K
  pub work_init : ℕ → K → K
  pub work_busy_get : ℕ → K → Busy
  pub work_reschedule : ℕ → Delay → K → Bool × K
  pub work_cancel : ℕ → K → K
  pub work_cancel_sync : ℕ → K → K

-- What can be told of the kernel: the bits that are set, the nodes of each list, the flags of each
-- work item and when it is due, and whose handler a thread is in.
pub record View : Type 0 where
  pub taken : ℕ → Bool
  pub members : ℕ → List ℕ
  pub busy : ℕ → Busy
  pub due : ℕ → Option Delay
  pub handler : ℕ → Option ℕ

abbrev pub set_at {ℓ} : {A : Type ℓ} → (ℕ → A) → ℕ → A → ℕ → A
set_at f i a j = if j == i then a else f j

abbrev pub In : ℕ → List ℕ → Type 0
In i [] = ⊥
In i (x ∷ xs) = (i ≡ x) ⊎ In i xs

abbrev pub Once : List ℕ → Type 0
Once [] = Unit {0}
Once (x ∷ xs) = (In x xs → ⊥) × Once xs

abbrev pub without : ℕ → List ℕ → List ℕ
without i [] = []
without i (x ∷ xs) = if i == x then without i xs else x ∷ without i xs

abbrev pub head? : List ℕ → Option ℕ
head? [] = none
head? (x ∷ xs) = some x

-- A delay that is not K_NO_WAIT.
abbrev pub Waits : Delay → Type 0
Waits (Delay.ticks n) = n ≢ 0
Waits (Delay.usec n) = n ≢ 0

-- A work item whose handler runs is canceled when that returns.
abbrev pub canceled : Busy → Busy
canceled b =
    if b.running
    then record {
      running = true;
      canceling = true;
      queued = false;
      delayed = false;
      flushing = b.flushing;
    }
    else idle

-- Their documented behaviour, for a bit array of `max` bits.
pub record Documented {K : Type 0} (C : Calls K) (max : ℕ) : Type 0 where
  pub view : K → View
  pub alloc_some :
      (k : K) (i : ℕ)
      → (C.bitarray_alloc k).0 ≡ some i
      → (i < max)
        × ((view k).taken i ≡ false)
        × (view (C.bitarray_alloc k).1 ≡ record (view k) { taken = set_at (view k).taken i true })
  pub alloc_none :
      (k : K)
      → (C.bitarray_alloc k).0 ≡ none
      → ((i : ℕ) → i < max → (view k).taken i ≡ true) × (view (C.bitarray_alloc k).1 ≡ view k)
  pub free_lem :
      (k : K) (i : ℕ)
      → i < max
      → (view k).taken i ≡ true
      → ((C.bitarray_free i k).0 ≡ true)
        × (view (C.bitarray_free i k).1 ≡ record (view k) { taken = set_at (view k).taken i false })
  pub init_lem :
      (k : K) (c : ℕ)
      → view (C.dlist_init c k) ≡ record (view k) { members = set_at (view k).members c [] }
  pub append_lem :
      (k : K) (c i : ℕ)
      → ((d : ℕ) → In i ((view k).members d) → ⊥)
      → view (C.dlist_append c i k)
        ≡ record (view k) { members = set_at (view k).members c ((view k).members c ++ i ∷ []) }
  -- A node is in one list at most.
  pub remove_lem :
      (k : K) (c i : ℕ)
      → In i ((view k).members c)
      → view (C.dlist_remove i k)
        ≡ record (view k) { members = λ d. without i ((view k).members d) }
  pub head_lem : (k : K) (c : ℕ) → C.dlist_peek_head c k ≡ head? ((view k).members c)
  pub next_lem :
      (k : K) (c i : ℕ) (pre post : List ℕ)
      → (view k).members c ≡ pre ++ i ∷ post
      → Once ((view k).members c)
      → C.dlist_peek_next c i k ≡ head? post
  pub mutex_init_lem : (k : K) (c : ℕ) → view (C.mutex_init c k) ≡ view k
  pub lock_lem : (k : K) (c : ℕ) → view (C.mutex_lock c k) ≡ view k
  pub unlock_lem : (k : K) (c : ℕ) → view (C.mutex_unlock c k) ≡ view k
  pub busy_lem : (k : K) (i : ℕ) → C.work_busy_get i k ≡ (view k).busy i
  pub reschedule_lem :
      (k : K) (i : ℕ) (d : Delay)
      → Waits d
      → ((C.work_reschedule i d k).0 ≡ true)
        × (view (C.work_reschedule i d k).1 ≡ record (view k) {
          busy = set_at (view k).busy i (record ((view k).busy i) { delayed = true });
          due = set_at (view k).due i (some d);
        })
  pub cancel_lem :
      (k : K) (i : ℕ)
      → view (C.work_cancel i k) ≡ record (view k) {
        busy = set_at (view k).busy i (canceled ((view k).busy i));
        due = set_at (view k).due i none;
      }
  -- It waits while the handler runs: in it, it would not return.
  pub cancel_sync_lem :
      (k : K) (i : ℕ)
      → ((t : ℕ) → (view k).handler t ≢ some i)
      → view (C.work_cancel_sync i k)
        ≡ record (view k) { busy = set_at (view k).busy i idle; due = set_at (view k).due i none }
