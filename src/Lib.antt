-- ===== src/Lib.antt =====
-- c_wrapper: C++ wrappers of the POSIX API for embedded systems, and what they guarantee.
--
-- The library has a main loop (common/MainLoop.h, MainLoop.cpp) that runs timers (common/Timer.h,
-- Timer.cpp), posted functions and file watchers on one thread; containers of fixed capacity that the
-- loop and other threads share (CircularQueue.h, ByteRingBuffer.h); threads of their own for a worker,
-- for a callable and for a timer (WorkerThread.h, AsyncThread.h, TimerThread.h); a logger (Log.h), the
-- set-up of a program (Platform.h) and small utilities (utils/BitOps.h). Threads meet in critical
-- sections of a mutex (Mutex.h, CondVar.h) and in atomics.
--
-- Files, and the code that each models (paths from the repository's root):
--   Prelude: what all share. Prelude/Ring has the `size_t` arithmetic and the indices of a ring,
--     Prelude/Bits the bit operations, Prelude/Lists and Prelude/Slices lists with native indices.
--   CircularQueue: common/CircularQueue.h. The record has the class's members; `put` and `get` are the
--     methods, `Fifo` is the bounded list that they implement.
--   ByteRing: common/ByteRingBuffer.h. Each public method is one critical section of `mLock`, so it is
--     one step on the state. `_peek` is `peek_at`, `_drop` is `drop_front`, `_peekType` and `_readType`
--     are `peek_type` and `read_type` at a width in bytes. A null buffer is `none` or `false`.
--   BitOps: utils/BitOps.h, at every width of the unsigned type.
--   TimerList: the list `mTimers` of common/MainLoop.cpp, in the order of expiry: insertTimerLocked,
--     removeTimer, takeExpiredTimerLocked, getNextTimerTimeoutLocked.
--   Timer: common/Timer.cpp. One timer with the loop thread that runs it and the thread that controls
--     it. Each thread has a place in the code (`LoopPc`, `ControlPc`), a step is one access of shared
--     state, and a run is any sequence of steps of either, so the sequence is the interleaving. A step
--     that needs `mTimerLock` while the loop holds it changes nothing: the thread waits.
--   Pool: common/Pool.h. The bitmap, the links and the head are the members; a pointer is an address.
--     DataPool and ObjectPool are the same operations in a critical section, and `destroy` says on which
--     address the destructor runs. Pool/Objects has what they do to the objects, in any sequence of calls.
--   Observers: common/ObserverList.h. Each critical section is one function, and `step` makes one of any
--     thread, so a list of moves is an interleaving; `notify` is its critical sections, one index at a
--     time, and the callbacks that run are kept with the list. The wait of `removeAndWait` is split into
--     what is done before it and after it.
--   Worker: common/WorkerThread.cpp. The thread that holds the lifecycle lock (in start, stop or join), the
--     worker thread in taskEntry, and any others in requestStop; a step is one critical section of the
--     state lock, one load, or one foreign call, whose answer is an input. A wait on the state's condition
--     variable makes no step until its predicate holds. Worker/Sleep has sleep, msleep on any thread and
--     isCurrentThread; Worker/Owner is what the owner of a worker may rely on.
--   AsyncThread: common/AsyncThread.h, over Worker and FixedFunction. The thread that holds its lifecycle
--     lock and the worker thread in `run` each have a place in the code, and every access of the engine is
--     an access of Worker. Back has the whole of a stop of the engine, Restart and Finish what follows it.
--   SyncQueue: common/SyncQueue.h. A call that waits is given the list of its wake-ups, each with the state
--     that it finds and whether it came in time; while the list is not enough the call has no result.
--   CondVar: common/CondVar.h. A wait with a predicate is given the list of the ends of its calls of
--     pthread_cond_wait and pthread_cond_timedwait, with the state that each finds.
--   Mutex: common/Mutex.h. The constructors, given what pthread answers; a `Block` is the part of a method
--     that matters to `Lock`, and Scopes counts what is held.
--   FixedFunction: common/FixedFunction.h. The three function pointers are Booleans, the callable in the
--     storage is a number; every operation gives what it does to callables, in order.
--   MainLoop: common/MainLoop.h, MainLoop.cpp.
--     Pipe: sendCommand and drainCommandPipe, given what write and read answer.
--     Wakeup: post, addTimer, removeTimer, wakeup and terminate of other threads, interleaved with the loop
--       an access at a time, over the bytes in the pipe.
--     Functions: post and runFunctions over CircularQueue and FixedFunction.
--     Timers: the loop on runTimers, over TimerList, with executeFromLoop and requeueFromLoop.
--     Dispatch: the events of epoll_wait. Once: loopOnce, put together from these, and `loop`, its rounds;
--       what timers, watchers and other threads post after runFunctions is an input, `late`, and stays in
--       the queue for the next round.
--     Descriptors: the constructor and the destructor.
--     Watchers: addFdWatcher and removeFdWatcher over Observers; the record `Epoll` has what the manual of
--       epoll_ctl says.
--   TimerThread: common/TimerThread.cpp. `run` is given what each of its rounds meets; an `int` or
--     `int64_t` is its bits.
--   Log: common/Log.h, Log.cpp. `print` is LOG_Print, given the text of the time, which Log/Time has;
--     Log/Function has simplify_function, Log/Calls the macros and AutoFunctionTrace, Log/Dump LOG_Dump
--     with Hex for the digits, Lines for the lengths and Decode for what can be read back.
--   Platform: common/Platform.h; the record `Signals` has what the manual of sigaction says.
--   SysTime: common/SysTime.h.
--
-- Bounds: `size_t` and `uint64_t` are numbers modulo 2 ^ 64. The invariants of the two rings ask for a
-- capacity below 2 ^ 64, and below 2 ^ 63 for the byte ring, which any array in memory meets; no index
-- sum then wraps. Loops over a list recur on the list and need no fuel; `flush` has fuel, and one more
-- than the elements is enough; LOG_Dump has one line of fuel for each byte, which is more than its lines.
-- The loops of the main loop and of the timer thread recur on the list of what they meet, and have no
-- result where it ends before they do. The laws of the observer list ask that fewer than 2 ^ 64 callbacks
-- run, each of which is on a stack of its own, and `mGeneration` goes round after 2 ^ 64 calls of `add`.
--
-- Not modelled: memory orders weaker than sequential consistency, and calls of one timer from its own
-- callback, which ITimerHandler forbids. A mutex excludes and a wait under it sees every broadcast:
-- this is taken from pthread, so a critical section is one step. In MainLoop/Timers the callbacks
-- start no timers and no other thread touches them: Timer has those races, for one timer. AsyncThread
-- is started and stopped by other threads than its own, as its assertions ask. In MainLoop/Wakeup
-- epoll_wait reports the pipe whenever it holds a byte, which asks that no more than 31 other
-- descriptors be ready: the code takes 32 events at once. The formatting of messages by vfprintf, the
-- name and the scheduling of a worker thread, and the helper of common/MainLoop.cpp for systems
-- without pipe2 are not modelled. Main.cpp is an example program that only calls the library.
pub mod AsyncThread
pub mod BitOps
pub mod ByteRing
pub mod CircularQueue
pub mod CondVar
pub mod FixedFunction
pub mod Log
pub mod MainLoop
pub mod Mutex
pub mod Observers
pub mod Platform
pub mod Pool
pub mod Prelude
pub mod SyncQueue
pub mod SysTime
pub mod Timer
pub mod TimerList
pub mod TimerThread
pub mod Worker
