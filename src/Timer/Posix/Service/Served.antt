-- ===== src/Timer/Posix/Service/Served.antt =====
-- Which callbacks `service_pfds` (timer/posix/timer_posix.c) calls.
use gabs.Base.{
  ℕ, ◌≡◌, refl, ap, ap₂, ◌∙◌, ◌&&◌, Bool, true, false, not, Option, none, some, List, [], ◌∷◌,
  if◌then◌else◌, arith,
}
use gabs.Timer.Posix.Mask.{Word, bit_active, mask_clear}
use gabs.Timer.Posix.Mask.Alone.{
  alone, mask_clear-alone, mask_test-used, mask_test-zombie, mask_test-active,
}
use gabs.Timer.Posix.Scan.{Slot, Fd, same_fd, timer_from_fd, timer_valid, next_index}
use gabs.Timer.Posix.Service.{Pollfd, timer_alarm, alarm_at, fire, service_one, service_pfds}

-- The descriptors that are ready, and nothing else is up with them.
abbrev pub ready : List Pollfd → List Fd
ready [] = []
ready (p ∷ ps) = if p.readable && not p.other then p.fd ∷ ready ps else ready ps

abbrev pub is_valid : Slot → Bool
is_valid t = t.state.used && not t.state.zombie

abbrev pub among : Fd → List Fd → Bool
among fd [] = false
among fd (x ∷ xs) = if same_fd fd x then true else among fd xs

abbrev pub distinct : List Fd → Bool
distinct [] = true
distinct (x ∷ xs) = if among x xs then false else distinct xs

-- A timer that was served is active no longer.
abbrev pub rested : Slot → Slot
rested t = record t { state = record t.state { active = false } }

-- The first valid timer with the descriptor is served.
abbrev pub serve : Fd → List Slot → List Slot
serve fd [] = []
serve fd (t ∷ ts) = if is_valid t && same_fd t.fd fd then rested t ∷ ts else t ∷ serve fd ts

not_both : (a b c : Fd) → same_fd b c ≡ false → same_fd a b ≡ true → same_fd a c ≡ false
not_both none none c h g = h
not_both none (some b) c h g = ground arith
not_both (some a) none c h g = ground arith
not_both (some a) (some b) none h g = refl
not_both (some a) (some b) (some c) h g = ground arith

among_cons :
    (fd x : Fd) (xs : List Fd)
    → among fd (x ∷ xs) ≡ false
    → (same_fd fd x ≡ false) × (among fd xs ≡ false)
among_cons fd x xs h = ground arith

distinct_cons :
    (x : Fd) (xs : List Fd) → distinct (x ∷ xs) ≡ true → (among x xs ≡ false) × (distinct xs ≡ true)
distinct_cons x xs h = ground arith

valid_lem : (t : Slot) → timer_valid t ≡ is_valid t
unfolding timer_valid
valid_lem t = ap₂ (λ (a b : Bool). a && not b) (mask_test-used t.state) (mask_test-zombie t.state)

abbrev pub serve_all : List Fd → List Slot → List Slot
serve_all [] ts = ts
serve_all (fd ∷ fds) ts = serve_all fds (serve fd ts)

module _ {S : Type 0} (run : ℕ → ℕ → S → S) where
  -- The callback of a timer is called if it has one and is active.
  abbrev pub call : Slot → S → S
  call t s = elim t.cb [ none ↦ s | some cb ↦ if t.state.active then run cb t.user_arg s else s ]

  abbrev pub call_for : Fd → List Slot → S → S
  call_for fd [] s = s
  call_for fd (t ∷ ts) s = if is_valid t && same_fd t.fd fd then call t s else call_for fd ts s

  alarm_lem : (t : Slot) (s : S) → timer_alarm run t s ≡ call t s
  unfolding timer_alarm
  alarm_lem t s = ap after (mask_test-active t.state)
    where
      after : Bool → S
      after b = elim t.cb [ none ↦ s | some cb ↦ if b then run cb t.user_arg s else s ]

  fire_next :
      (t : Slot) (ts : List Slot) (r : Option ℕ) (s : S)
      → fire run (next_index r) (t ∷ ts, s) ≡ (t ∷ (fire run r (ts, s)).0, (fire run r (ts, s)).1)
  unfolding fire alarm_at
  fire_next t ts none s = refl
  fire_next t ts (some i) s = refl

  fire_head :
      (t : Slot) (ts : List Slot) (s : S)
      → fire run (some 0) (t ∷ ts, s) ≡ (rested t ∷ ts, call t s)
  unfolding fire alarm_at
  fire_head t ts s =
      ap₂ (λ (w : Word) (x : S). (record t { state = w } ∷ ts, x)) (cleared t) (alarm_lem t s)
    where
      cleared :
          (t : Slot) → (alone (mask_clear bit_active) t.state).0 ≡ record t.state { active = false }
      cleared t = ground (arith, mask_clear-alone bit_active t.state)

  -- The slot at the head is the one that is found, or it stays as it is.
  fire_step :
      (b : Bool) (fd : Fd) (t : Slot) (ts : List Slot) (s : S)
      → fire run (timer_from_fd ts fd) (ts, s) ≡ (serve fd ts, call_for fd ts s)
      → fire run (if b then some 0 else next_index (timer_from_fd ts fd)) (t ∷ ts, s)
        ≡ (if b then rested t ∷ ts else t ∷ serve fd ts, if b then call t s else call_for fd ts s)
  fire_step true fd t ts s h = fire_head t ts s
  fire_step false fd t ts s h =
      fire_next t ts (timer_from_fd ts fd) s ∙ ap (λ (r : List Slot × S). (t ∷ r.0, r.1)) h

  fire_lem :
      (fd : Fd) (ts : List Slot) (s : S)
      → fire run (timer_from_fd ts fd) (ts, s) ≡ (serve fd ts, call_for fd ts s)
  unfolding timer_from_fd fire
  fire_lem fd [] s = refl
  fire_lem fd (t ∷ ts) s =
      ap (λ r. fire run r (t ∷ ts, s))
        (found (timer_valid t) (is_valid t) (same_fd t.fd fd) (valid_lem t))
      ∙ fire_step (is_valid t && same_fd t.fd fd) fd t ts s (fire_lem fd ts s)
    where
      found :
          (a b c : Bool)
          → a ≡ b
          → (if not a
              then next_index (timer_from_fd ts fd)
              else if c
              then some 0
              else next_index (timer_from_fd ts fd))
            ≡ (if b && c then some 0 else next_index (timer_from_fd ts fd))
      found a b c h = ground arith

  -- The callbacks of the descriptors in turn, each with the slots as they are given.
  abbrev pub call_all : List Fd → List Slot → S → S
  call_all [] ts s = s
  call_all (fd ∷ fds) ts s = call_all fds ts (call_for fd ts s)

  -- To serve one descriptor leaves the calls for another one alone.
  call_for-serve :
      (fd other : Fd)
      → same_fd fd other ≡ false
      → (ts : List Slot) (s : S) → call_for other (serve fd ts) s ≡ call_for other ts s
  call_for-serve fd other h [] s = refl
  call_for-serve fd other h (t ∷ ts) s =
      ground (arith, call_for-serve fd other h ts s, not_both t.fd fd other h)

  call_all-serve :
      (fd : Fd) (fds : List Fd)
      → among fd fds ≡ false
      → (ts : List Slot) (s : S) → call_all fds (serve fd ts) s ≡ call_all fds ts s
  call_all-serve fd [] h ts s = refl
  call_all-serve fd (x ∷ xs) h ts s =
      ap (call_all xs (serve fd ts)) (call_for-serve fd x (among_cons fd x xs h).0 ts s)
      ∙ call_all-serve fd xs (among_cons fd x xs h).1 ts (call_for x ts s)

  -- An entry that is ready has its descriptor served, and no other entry does anything.
  service_one_lem :
      (p : Pollfd) (ts : List Slot) (s : S)
      → service_one run p (ts, s)
        ≡ (if p.readable && not p.other then (serve p.fd ts, call_for p.fd ts s) else (ts, s))
  unfolding service_one
  service_one_lem p ts s = ground (arith, fire_lem p.fd ts s)

  serve_next :
      (b : Bool) (fd : Fd) (ps : List Pollfd) (ts : List Slot) (s : S)
      → distinct (if b then fd ∷ ready ps else ready ps) ≡ true
      → ((us : List Slot) (r : S)
          → distinct (ready ps) ≡ true
          → service_pfds run ps (us, r) ≡ (serve_all (ready ps) us, call_all (ready ps) us r))
      → service_pfds run ps (if b then (serve fd ts, call_for fd ts s) else (ts, s)) ≡ (
        serve_all (if b then fd ∷ ready ps else ready ps) ts,
        call_all (if b then fd ∷ ready ps else ready ps) ts s,
      )
  serve_next true fd ps ts s h next =
      next (serve fd ts) (call_for fd ts s) (distinct_cons fd (ready ps) h).1
      ∙ ap (λ (r : S). (serve_all (ready ps) (serve fd ts), r))
          (call_all-serve fd (ready ps) (distinct_cons fd (ready ps) h).0 ts (call_for fd ts s))
  serve_next false fd ps ts s h next = next ts s h

  -- When no descriptor is ready twice, `service_pfds` serves those that are ready, in their order: the
  -- first valid timer with the descriptor is active no longer, and all else stays as it was. The
  -- callbacks that it calls are those of these timers as they were at the start, of each that has one
  -- and was active. Entries with another event, or for no valid timer, change nothing. A callback
  -- makes no calls on timers, and nobody else writes the slots meanwhile.
  pub service_pfds-Served :
      (pfds : List Pollfd) (ts : List Slot) (s : S)
      → distinct (ready pfds) ≡ true
      → service_pfds run pfds (ts, s) ≡ (serve_all (ready pfds) ts, call_all (ready pfds) ts s)
  unfolding service_pfds
  service_pfds-Served [] ts s h = refl
  service_pfds-Served (p ∷ ps) ts s h =
      ap (service_pfds run ps) (service_one_lem p ts s)
      ∙ serve_next (p.readable && not p.other) p.fd ps ts s h (service_pfds-Served ps)
