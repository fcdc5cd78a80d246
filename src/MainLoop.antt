-- ===== src/MainLoop.antt =====
-- common/MainLoop.h, MainLoop.cpp: the loop itself. Its list of timers is the module TimerList.
pub mod Pipe
pub mod Wakeup
pub mod Functions
pub mod Timers
pub mod Dispatch
pub mod Once
pub mod Watchers
pub mod Descriptors
