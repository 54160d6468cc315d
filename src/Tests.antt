-- ===== src/Tests.antt =====
-- Runs of the modelled functions at concrete inputs, and the theorems at such inputs.
mod HashTable
mod List
mod Threads
mod Signals
mod Points
mod SharedMem
mod Log
mod Loop
mod Calls
mod Segments
mod Monitor
mod Program
mod Stranded
mod Rounds
