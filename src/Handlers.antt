-- ===== src/Handlers.antt =====
-- workers/registry.py and workers/modules/batch.py: which task types a worker handles, and the handler
-- that puts the results of the shards together.
pub mod Registry
pub mod Serving
pub mod Batch
pub mod Basic
