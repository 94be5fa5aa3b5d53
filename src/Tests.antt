-- ===== src/Tests.antt =====
-- The theorems at concrete inputs.
mod Texts
mod Draws
mod Workloads
mod Databases
mod Runs
mod Stores
mod StoreRuns
mod Servers
mod Interleavings
mod Memory
mod Reports
mod Threads
