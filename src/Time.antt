-- ===== src/Time.antt =====
-- The arithmetic of times on POSIX: contrib/posix/posix_timediff.c, and `to_itimerspec` of
-- timer/posix/timer_posix.c.
pub mod Exact
mod Examples
use gabs.Base.{ℕ, ◌+◌, ◌-◌, ◌*◌, ◌/◌, ◌%◌, ◌^◌, ◌&&◌, ◌==◌, Option, none, some, ltb, if◌then◌else◌}

-- `struct timespec`, with the seconds not negative
pub record Timespec : Type 0 where
  pub tv_sec : ℕ
  pub tv_nsec : ℕ

-- what follows a clock that could be read in `posix_timediff_resolve`: the carry of nanoseconds
abbrev pub carry : ℕ → ℕ → Timespec
carry sec nsec =
    if ltb nsec 1000000000
    then record { tv_sec = sec; tv_nsec = nsec }
    else record { tv_sec = sec + 1; tv_nsec = nsec - 1000000000 }

-- What a function that writes a time does: it fails with `errno`, or it writes the time.
pub data Clock : Type 0 where
  unread : ℕ → Clock
  shows : Timespec → Clock

-- `posix_timediff_resolve`, given what `clock_gettime` does. The product of `uint64_t` wraps around.
pub resolve : Clock → ℕ → Clock
resolve (unread e) diff = unread e
resolve (shows now) diff =
    shows
      (carry (now.tv_sec + diff / 1000000) (now.tv_nsec + ((diff * 1000) % 2 ^ 64) % 1000000000))

-- `to_itimerspec`: the member `it_value`; `it_interval` is 0
pub to_itimerspec : ℕ → Timespec
to_itimerspec time_us =
    let sec = time_us / 1000000 in
    let nsec = (time_us % 1000000) * 1000 in
    if (sec == 0) && (nsec == 0)
    then record { tv_sec = sec; tv_nsec = 1 }
    else record { tv_sec = sec; tv_nsec = nsec }
