-- ===== src/Time/Exact.antt =====
-- What times contrib/posix/posix_timediff.c and `to_itimerspec` (timer/posix/timer_posix.c) compute.
use gabs.Base.{
  ℕ, ◌+◌, ◌*◌, ◌/◌, ◌%◌, ◌^◌, ◌≤◌, ◌<◌, ◌≡◌, refl, ◌&&◌, ◌==◌, ltb, if◌then◌else◌, arith,
  Bool-cases, inl, inr, true, false, ◌≢◌, ==-false_of_ne,
}
use gabs.Time.{Clock, Timespec, carry, resolve, to_itimerspec}

-- A time in nanoseconds.
abbrev pub nanoseconds : Timespec → ℕ
nanoseconds t = t.tv_sec * 1000000000 + t.tv_nsec

-- A valid time is computed, and it satisfies the predicate.
abbrev pub Resolved : (Timespec → Type 0) → Clock → Type 0
Resolved P (Clock.unread e) = ⊥
Resolved P (Clock.shows t) = (t.tv_nsec < 1000000000) × P t

carry-nanoseconds :
    (sec nsec : ℕ)
    → nsec < 2000000000
    → ((carry sec nsec).tv_nsec < 1000000000)
      × (nanoseconds (carry sec nsec) ≡ sec * 1000000000 + nsec)
carry-nanoseconds sec nsec small = elim (Bool-cases (ltb nsec 1000000000)) [
  | inl e ↦ rw e (ground arith, refl)
  | inr e ↦ rw e (ground arith, ground arith)
]

-- Of a clock that can be read and shows a valid time, `posix_timediff_resolve` makes the valid time
-- that is exactly `diff` microseconds later, as long as `diff * 1000` does not wrap around.
pub resolve-exact :
    (now : Timespec) (diff : ℕ)
    → now.tv_nsec < 1000000000
    → diff * 1000 < 2 ^ 64
    → Resolved (λ t. nanoseconds t ≡ nanoseconds now + diff * 1000) (resolve (Clock.shows now) diff)
unfolding resolve
resolve-exact now diff valid small =
    let (ok_nsec, total) =
      carry-nanoseconds (now.tv_sec + diff / 1000000)
        (now.tv_nsec + ((diff * 1000) % 2 ^ 64) % 1000000000) (omega arith) in
    (ok_nsec, omega (arith, total))

-- Of a clock that can be read and shows a valid time, and of any `diff`, `posix_timediff_resolve`
-- makes a valid time, which is not before the whole seconds of `diff` have passed, and less than a
-- second after that.
pub resolve-bounds :
    (now : Timespec) (diff : ℕ)
    → now.tv_nsec < 1000000000
    → Resolved
        (λ t.
          (nanoseconds now + (diff / 1000000) * 1000000000 ≤ nanoseconds t)
          × (nanoseconds t < nanoseconds now + (diff / 1000000) * 1000000000 + 1000000000))
        (resolve (Clock.shows now) diff)
unfolding resolve
resolve-bounds now diff valid =
    let (ok_nsec, total) =
      carry-nanoseconds (now.tv_sec + diff / 1000000)
        (now.tv_nsec + ((diff * 1000) % 2 ^ 64) % 1000000000) (omega arith) in
    (ok_nsec, (omega (arith, total), omega (arith, total)))

zero_test : (a b : ℕ) → ((a == 0) && (b == 0)) ≡ true → (a ≡ 0) × (b ≡ 0)
zero_test a b e = (ground arith, ground arith)

nonzero_test : (a b : ℕ) → ((a == 0) && (b == 0)) ≡ false → a + b ≢ 0
nonzero_test a b e z = let k : (a ≡ 0) × (b ≡ 0) = (omega arith, omega arith) in ground arith

both_zero :
    (time_us : ℕ)
    → ((time_us / 1000000 == 0) && ((time_us % 1000000) * 1000 == 0)) ≡ true
    → time_us ≡ 0
both_zero time_us e =
    let (s, n) = zero_test (time_us / 1000000) ((time_us % 1000000) * 1000) e in omega (arith, s, n)

not_zero :
    (time_us : ℕ)
    → ((time_us / 1000000 == 0) && ((time_us % 1000000) * 1000 == 0)) ≡ false
    → time_us ≢ 0
not_zero time_us e z = nonzero_test (time_us / 1000000) ((time_us % 1000000) * 1000) e (omega arith)

-- `to_itimerspec` makes a valid time that is not zero, which would disarm the timer: exactly the given
-- microseconds, and one nanosecond for none.
pub to_itimerspec-exact :
    (time_us : ℕ)
    → ((to_itimerspec time_us).tv_nsec < 1000000000)
      × (0 < nanoseconds (to_itimerspec time_us))
      × (nanoseconds (to_itimerspec time_us) ≡ (if time_us == 0 then 1 else time_us * 1000))
unfolding to_itimerspec
to_itimerspec-exact time_us =
    let sec = time_us / 1000000 in
    let nsec = (time_us % 1000000) * 1000 in
    elim (Bool-cases ((sec == 0) && (nsec == 0))) [
      | inl e ↦
          let zero_us = both_zero time_us e in
          rw (e, zero_us) (omega arith, omega arith, omega arith)
      | inr e ↦
          let some_us = not_zero time_us e in
          rw (e, ==-false_of_ne time_us 0 some_us) (omega arith, omega arith, omega arith)
    ]

-- An error of `posix_timediff_resolve` is that of the clock.
pub resolve-Clock : (c : Clock) (diff e : ℕ) → resolve c diff ≡ Clock.unread e → c ≡ Clock.unread e
unfolding resolve
resolve-Clock (Clock.unread n) diff e same = same
resolve-Clock (Clock.shows t) diff e same = absurd (ground arith)

pub Resolved-shows :
    (P : Timespec → Type 0) (c : Clock)
    → Resolved P c
    → (t : Timespec) × (c ≡ Clock.shows t) × (t.tv_nsec < 1000000000) × P t
Resolved-shows P (Clock.unread e) r = absurd r
Resolved-shows P (Clock.shows t) (valid, p) = (t, refl, valid, p)
