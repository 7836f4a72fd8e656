-- ===== src/Lib.antt =====
-- Verification of the generalized abstractions library, `gabs`: a C interface to packet buffers,
-- timers, allocators, mutexes, semaphores and random numbers, with an implementation of each for
-- POSIX and for Zephyr.
--
-- The program's parts and their files here:
--
--   Base   the C language: `size_t` arithmetic with its wrap-around on an LP64 platform (Words),
--          Boolean tests (Tests), lists by native numbers (Lists), and code that returns, faults or
--          runs out of fuel (Run).
--   Alloc  allocators. Alloc models alloc/alloc.c and the macros of include/gabs/alloc.h, calls through
--          a handle, and what include/gabs/cc/handle.hh and include/gabs/alloc.hh do with addresses;
--          Alloc/Kinds the allocators of alloc/std.c, alloc/zephyr/zephyr_heap.c and
--          alloc/zephyr/netbuf_alloc.c; Alloc/Header the C++ allocator of include/gabs/alloc/std.hh.
--   Pbuf   packet buffers. Pbuf/Seg and Pbuf/Bytes are the abstract view: a buffer is a list of
--          contiguous segments of byte memory, with the bytes they hold. Pbuf/Iface has the
--          contiguous iterators of include/gabs/pbuf.h as a record of operations, `Impl`, and what a
--          client relies on as a record of laws, `Laws`. Pbuf/Buf models pbuf/buf.c, the operations
--          written with those iterators, and its children prove them for every implementation with
--          the laws. Pbuf/Basic models pbuf/basic/basic.c and pbuf/basic/gabs_pbuf_def.h, fragments
--          on an explicit heap; its children prove the laws, gathered in Pbuf/Basic/Laws. Pbuf/Net models
--          pbuf/zephyr/net_buf.c over the calls of Zephyr's network buffers, which are the records of
--          Pbuf/NetBuf, and over the allocators of Alloc; its children prove the same laws, gathered in
--          Pbuf/Net/Laws.
--   Timer  timers. Timer/Manual models timer/manual/timer_manual.c and timer/manual/gabs_timer_def.h: a
--          context with its array of timers and its clock, the operations on it, and callbacks as a
--          parameter that may change the context and a state of the client's own. Its children are
--          about the choice of the next timer (Next, Order), the number of timers that are due
--          (Count), the loop that fires them (Advance, Trace), and the other operations (Install,
--          Ops).
--          Timer/Posix/Mask models timer/posix/atomic_mask.h, the loops on the atomic state word of a
--          timer, and its child Atomic what they do while other threads write the word.
--          Timer/Posix/Life has the life of one timer of timer/posix/timer_posix.c: the accesses of a
--          client and of the worker thread to its state word, its lock and its file descriptor, as
--          steps that interleave, each call of the state word's functions one step; Safety is about
--          every reachable state, Called about the way of a scheduled timer to its call, and Race about a
--          restart that is lost. Timer/Posix/Scan has the slots of a context in
--          turn: what the worker puts into its array for `poll` (Fill), and how a client gets a slot
--          (Add); Timer/Posix/Service has what the worker does with the events that `poll` reports
--          (Served), and Timer/Posix/Round a whole round of it, with what becomes of every slot (Turned);
--          Timer/Posix/Context has the start and the end of a context, and the descriptors that they leave
--          open (Closed); Timer/Posix/Client has the calls of a client one after the other, and what they
--          promise (Promise).
--          Timer/Zephyr models timer/zephyr/timer_zephyr.c over the calls of Zephyr's kernel, which are
--          the records of Timer/Kernel; its children are about the pool and the lists of the contexts
--          (Good, Pool), the end of a context (Deinit), when timers are due (Due), and the handler of
--          a work item (Expiry).
--   Time   the arithmetic of contrib/posix/posix_timediff.c, which makes the deadline of a wait on a
--          mutex or a semaphore, and of `to_itimerspec` in timer/posix/timer_posix.c.
--   Sync   mutex/posix and semaphore/posix, over parameters for the calls of the system; its child
--          Outcome is about what they return and how long they wait. Sync/Zephyr has mutex/zephyr,
--          semaphore/zephyr and contrib/zephyr/zephyr_timediff.h, over the calls of Zephyr's kernel.
--   Random random/posix and random/zephyr, over the random numbers of the system.
--
-- A C function of pbuf/buf.c keeps its name without the prefix `gabs_pbuf_`, except that
-- `gabs_pbuf_size` is `pbuf_size`. A loop is a function of its own, whose name ends in `_loop`, on
-- fuel; a number of rounds above the number of segments is enough, and the theorems say that the code
-- ends with it. Parts of a function that follow a loop have names of their own (`copy_from`,
-- `cut_head_at`, `cut_behind`, `detach_rest`, `shrink_tail`). The loops of `gabs_pbuf_ci_insert`,
-- `gabs_pbuf_ci_remove` and `gabs_pbuf_ci_detach` get fuel from their callers; where one fragment only
-- is inserted or removed, 2 rounds. A buffer is passed by the variable that holds it, since
-- `gabs_pbuf *` and `gabs_pbuf` are the address of that variable and its value. A dereference of NULL
-- or of a fragment that was freed and an assertion that fails are the result `fault`; the parameter
-- `ndebug` says whether assertions are left out. What an allocator answers is a parameter, a list of
-- answers to the requests to come in Pbuf/Basic, and the calls of Alloc in Pbuf/Net.
--
-- What is documented of a third-party call is a field of a record `Documented`, of Pbuf/NetBuf and
-- of Timer/Kernel; each has a child Plain with calls that behave so. A `struct net_buf` is given by
-- the record of a fragment of Pbuf/Basic, whose fields it has under other names; the 16 bits of its
-- `len` and `size` are written out where a greater size can reach them, in `gabs_pbuf_new_ro`. The
-- empty buffer cannot be inserted in Pbuf/Net: the law on insertion is about the chains that the
-- implementation admits.
--
-- Timers are the index in their context's array, and NULL is `none`. The loop of
-- `gabs_timer_manual_advance` takes fuel; more rounds than timers that are due are enough when
-- callbacks start no timer that is due. Its count is an `int`, whose overflow is a fault.
--
-- A loop of timer/posix/atomic_mask.h takes the list of its attempts, each with the word that it meets;
-- a list in which two attempts in a row meet the same word, and the second does not fail spuriously, is
-- long enough. The four loops have one shape, which is the function `retry`. `posix_timediff_resolve`
-- is `resolve`, given what `clock_gettime` does.
--
-- In Timer/Posix/Life `timer_cleanup` is one step. There is one client, which uses a timer from its
-- installation to its uninstall, and whose callback makes no calls on the timer; the other slots,
-- the queue of expired file descriptors and the context are left out.
--
-- In Timer/Zephyr one call follows the other: `firing` and the handlers are kept for each thread, but
-- two calls do not overlap. The loop of `gabs_timer_ctx_deinit` takes fuel; more rounds than timers of the
-- context are enough. A delay is passed to the kernel as a number of ticks or microseconds, without the
-- conversion of its macros.
--
-- In Timer/Posix/Scan, Timer/Posix/Service, Timer/Posix/Round and Timer/Posix/Client nobody else
-- writes the slots meanwhile, and in Timer/Posix/Service and Timer/Posix/Round a callback makes no
-- calls on timers: each call of timer/posix/atomic_mask.h is given two attempts that meet the same
-- word. A descriptor that is negative is `none`.
--
-- Not modelled: of timer/posix the calls that a callback makes while the worker services other
-- timers, and the locks at the end of a timer; the initialisation and the end of mutexes and
-- semaphores on POSIX and the seed of random numbers, which only call the system; the macros and
-- constructors that define allocators; log and testing, which pass calls on to third-party loggers
-- and test frameworks. The contents of memory that an allocator returns, and the sharing of a
-- fragment by two chains, are outside the theorems.
pub mod Base
pub mod Alloc
pub mod Pbuf
pub mod Timer
pub mod Time
pub mod Sync
pub mod Random
