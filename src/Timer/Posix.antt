-- ===== src/Timer/Posix.antt =====
-- POSIX timers (timer/posix): the atomic state word of a timer, the life of one, the slots of a context
-- and the rounds of its worker, and the calls of a client.
pub mod Context
pub mod Life
pub mod Mask
pub mod Round
pub mod Client
pub mod Scan
pub mod Service
