-- ===== src/Threads.antt =====
-- src/lib/thread_mgr: the table of threads, the calls on it, and the signal handlers. The calls of
-- log_event are left out.
pub mod State
pub mod Signals
pub mod Name
pub mod NameBytes
pub mod Api
pub mod All
pub mod Wait
pub mod Kill
pub mod Execute
pub mod Dispatch
pub mod Table
pub mod Outcomes
pub mod Calls
pub mod Manager
pub mod Served
pub mod Shown
pub mod Bindings
pub mod Rebinding
