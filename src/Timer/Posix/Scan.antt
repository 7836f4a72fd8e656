-- ===== src/Timer/Posix/Scan.antt =====
-- The slots of a context of POSIX timers (timer/posix/timer_posix.c): how the worker fills the array
-- that it polls, and how a client gets a slot. Nobody else writes the slots meanwhile; how accesses
-- interleave is in Life. The calls that close a descriptor are left out.
pub mod Fill
pub mod Add
mod Examples
use gabs.Base.{
  ℕ, zero, suc, ◌&&◌, ◌||◌, Bool, true, false, not, Option, none, some, List, [], ◌∷◌, ◌++◌, length,
  map, ltb, ◌==◌, if◌then◌else◌,
}
use gabs.Base.Run.{Cmd, Run, ok, pure, crash, ◌>>=◌, ◌>>◌}
use gabs.Timer.Posix.Mask.{
  Word, no_bits, bit_used, bit_zombie, bit_active, bit_sched, bit_alloc, mask_set, mask_set_strict,
  mask_clear, mask_cas, mask_test,
}
use gabs.Timer.Posix.Mask.Alone.{alone}

-- a file descriptor, `none` for a negative number
abbrev pub Fd : Type 0
Fd = Option ℕ

abbrev pub same_fd : Fd → Fd → Bool
same_fd none none = true
same_fd none (some b) = false
same_fd (some a) none = false
same_fd (some a) (some b) = a == b

-- `struct gabs_timer_posix`, without its lock and context; `cb` is none for NULL
pub record Slot : Type 0 where
  pub cb : Option ℕ
  pub user_arg : ℕ
  pub fd : Fd
  pub state : Word

-- `pfd_push` on an array of so many entries: the descriptors in it are the state. A write behind the
-- array is a fault.
pub pfd_push : ℕ → Fd → Cmd (List Fd) (Unit {0})
pfd_push room fd pfds = if ltb (length pfds) room then ok tt (pfds ++ fd ∷ []) else crash pfds

-- `timer_cleanup`
unfoldable pub timer_cleanup : Slot → Slot
timer_cleanup t = record t { state = no_bits }

-- the test for a timer that is to be polled in `prepare_pfds`, with the word after it
pub adopt : Word → Word × Bool
adopt w = if mask_test w bit_active then (w, true) else alone (mask_cas bit_sched bit_active) w

-- one round of the loop of `prepare_pfds`: the slot after it, and whether its descriptor is pushed
pub visit : Slot → Slot × Bool
unfolding timer_cleanup
visit t =
    if not (mask_test t.state bit_used)
    then (t, false)
    else if mask_test t.state bit_zombie
    then (timer_cleanup t, false)
    else (let (w, due) = adopt t.state in
        if due
        then (record t { state = (alone (mask_clear bit_sched) w).0 }, true)
        else (record t { state = w }, false))

-- `prepare_pfds`, which returns the slots after it
pub prepare_pfds : ℕ → List Slot → Cmd (List Fd) (List Slot)
unfolding visit pfd_push
prepare_pfds room [] = pure []
prepare_pfds room (t ∷ ts) = do
  if (visit t).1 then pfd_push room t.fd else pure tt
  rest ← prepare_pfds room ts
  pure ((visit t).0 ∷ rest)

-- `worker` up to the call of `poll`; its array has as many entries as the context has timers
pub worker_fill : Fd → List Slot → Run (List Fd) (List Slot)
unfolding pfd_push prepare_pfds
worker_fill eventfd timers =
    (do pfd_push (length timers) eventfd; prepare_pfds (length timers) timers) []

-- `timer_valid`
unfoldable pub timer_valid : Slot → Bool
timer_valid t = mask_test t.state bit_used && not (mask_test t.state bit_zombie)

abbrev pub next_index : Option ℕ → Option ℕ
next_index none = none
next_index (some i) = some (suc i)

-- `timer_from_fd`, which gives the index
unfoldable pub timer_from_fd : List Slot → Fd → Option ℕ
unfolding timer_valid
timer_from_fd [] fd = none
timer_from_fd (t ∷ ts) fd =
    let rest = next_index (timer_from_fd ts fd) in
    if not (timer_valid t) then rest else if same_fd t.fd fd then some 0 else rest

abbrev pub behind : Slot → Option ℕ × List Slot → Option ℕ × List Slot
behind t (i, ts) = (next_index i, t ∷ ts)

-- `timer_alloc`, which gives the index and the slots
pub timer_alloc : List Slot → Option ℕ × List Slot
timer_alloc [] = (none, [])
timer_alloc (t ∷ ts) =
    let (w, got) = alone (mask_set_strict bit_alloc) t.state in
    let rest = behind (record t { state = w }) (timer_alloc ts) in
    if got then (some 0, record t { state = w } ∷ ts) else rest

abbrev pub change : List Slot → ℕ → (Slot → Slot) → List Slot
change [] i f = []
change (t ∷ ts) zero f = f t ∷ ts
change (t ∷ ts) (suc i) f = t ∷ change ts i f

-- `timer_add`, given the descriptor that `timerfd_create` returns, if it does, and whether
-- `gabs_mutex_init` succeeds: what follows the allocation
pub fill_slot : Option ℕ → Bool → Option ℕ → ℕ → Option ℕ × List Slot → Option ℕ × List Slot
fill_slot create init cb user_arg (none, ts) = (none, ts)
fill_slot none init cb user_arg (some i, ts) =
    (none, change ts i (λ t. record t { cb = cb; user_arg = user_arg; fd = none; state = no_bits }))
fill_slot (some fd) false cb user_arg (some i, ts) = (
  none,
  change ts i (λ t. record t { cb = cb; user_arg = user_arg; fd = some fd; state = no_bits }),
)
fill_slot (some fd) true cb user_arg (some i, ts) = (
  some i,
  change ts i (λ t. record t {
    cb = cb;
    user_arg = user_arg;
    fd = some fd;
    state = (alone (mask_set bit_used) t.state).0;
  }),
)

-- `timer_add`
pub timer_add : Option ℕ → Bool → Option ℕ → ℕ → List Slot → Option ℕ × List Slot
unfolding timer_alloc fill_slot
timer_add create init cb user_arg timers = fill_slot create init cb user_arg (timer_alloc timers)
