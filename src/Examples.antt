-- ===== src/Examples.antt =====
-- Concrete disks and observations, runs of the model on them, and the theorems at inputs that meet
-- their hypotheses.
mod Samples
mod Recovery
mod Decisions
mod Records
mod Disks
mod Operations
mod Subscribers
mod Upgrades
mod Installs
mod Workers
