-- ===== src/Timer.antt =====
-- Timers (include/gabs/timer.h) and their implementations.
pub mod Manual
pub mod Kernel
pub mod Zephyr
pub mod Posix
