-- ===== src/Examples.antt =====
-- Runs of the code on small databases, and the theorems at concrete arguments.
mod Data
mod Tasks
mod Runs
mod Plans
mod Workers
mod Jobs
mod Markets
mod Requests
mod Items
mod Upgrades
