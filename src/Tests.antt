-- ===== src/Tests.antt =====
-- The theorems at concrete inputs, and runs of the definitions.
mod Day
mod Rooms
mod Talks
mod Queue
mod Commands
mod Pumps
mod Cuts
mod Mics
mod Emergency
mod Reports
mod Decisions
mod Jobs
mod Aside
