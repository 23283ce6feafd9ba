-- ===== src/Shutdown.antt =====
-- The shutdown orchestrator (src/shutdown).
pub mod Trigger
pub mod Async
pub mod Targets
pub mod Workflow
