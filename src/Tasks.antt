-- ===== src/Tasks.antt =====
-- app/infrastructure/repositories/task_repository.py, the class TaskRepository: each child holds a
-- group of its methods, and the proofs about them stand below that child.
pub mod Events
pub mod Effects
pub mod Create
pub mod Finish
pub mod Control
pub mod Family
pub mod Claim
pub mod Recover
pub mod Queries
pub mod Invariant
