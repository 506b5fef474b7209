-- ===== src/Tests.antt =====
-- Concrete records of the program, and each theorem applied to some of them.
mod Samples
mod Tasks
mod Initiatives
mod Records
mod Evidence
mod Schedules
mod Fleet
mod Cleanup
