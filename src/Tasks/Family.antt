-- ===== src/Tasks/Family.antt =====
-- task_repository.py: the methods on a parent task and its children (fan-out and fan-in), and
-- load_child_results. `Summary` counts the children, and `Refresh` writes the counts to the parent.
pub mod Summary
pub mod Refresh
pub mod Aggregate
pub mod Counts
pub mod Effects
pub mod Scheduling
pub mod Outcome
