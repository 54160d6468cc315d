-- ===== src/SharedMem.antt =====
-- src/lib/shmlib: the System V shared memory library.
pub mod State
pub mod Connect
pub mod Detach
pub mod Attachments
pub mod Entering
pub mod Detaching
pub mod Reconnect
pub mod RoundTrip
pub mod Show
pub mod Front
pub mod Destroying
pub mod Removals
pub mod Alone
pub mod Stranded
