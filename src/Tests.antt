-- ===== src/Tests.antt =====
-- Runs at fixed inputs, and the theorems applied to them.
mod Sample
mod Runs
mod Examples
mod Traffic
mod Loading
mod Marks
mod Options
mod Invocations
mod Interleaved
mod Listings
