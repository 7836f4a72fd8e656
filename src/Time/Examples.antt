-- ===== src/Time/Examples.antt =====
-- The times of contrib/posix/posix_timediff.c and timer/posix/timer_posix.c at concrete numbers.
use gabs.Base.{◌+◌, ◌*◌, ◌/◌, ◌≤◌, ◌<◌, arith}
use gabs.Time.{Clock, Timespec, resolve}
use gabs.Time.Exact.{nanoseconds, Resolved, resolve-bounds}

abbrev clock : Timespec
clock = record { tv_sec = 12; tv_nsec = 999999000 }

resolve-bounds_example :
    Resolved
      (λ t.
        (nanoseconds clock + (2500000 / 1000000) * 1000000000 ≤ nanoseconds t)
        × (nanoseconds t < nanoseconds clock + (2500000 / 1000000) * 1000000000 + 1000000000))
      (resolve (Clock.shows clock) 2500000)
resolve-bounds_example = resolve-bounds clock 2500000 (omega arith)
