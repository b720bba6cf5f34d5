-- ===== src/Tests.antt =====
-- Runs of the model on concrete inputs, those of tests/ among them, and instances of its theorems.
-- The numbers are whole (`Decimal.Whole`).
mod Samples
mod Texts
mod Disk
mod Storing
mod Cents
mod Feeding
mod Awaiting
mod Serving
mod Sessions
mod Mocking
mod CostBases
mod OrderRuns
mod Services
mod Reconciling
mod EngineRuns
mod Interleaved
mod Durable
mod Connecting
mod Playing
