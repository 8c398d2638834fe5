-- ===== src/Tests.antt =====
-- Runs of the model at fixed inputs, and the theorems at inputs that meet their hypotheses.
mod Book
mod Compute
mod Feed
mod Invariant
mod Names
mod Orders
mod Session
mod Wire
