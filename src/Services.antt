-- ===== src/Services.antt =====
-- app/application/services: what the HTTP routes and the worker call.
pub mod Commands
pub mod Fanout
pub mod Execution
