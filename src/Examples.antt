-- ===== src/Examples.antt =====
-- Runs at concrete inputs: the theorems applied to small states, and tests of the definitions.
mod Maps
mod Memory
mod Files
mod Latency
mod Processor
mod Clock
mod Disks
mod Queues
mod Programs
mod Processes
mod Airports
mod Sessions
mod Locks
mod Calls
