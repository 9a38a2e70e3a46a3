-- ===== src/Queue.antt =====
-- queue/store.py and queue/worker.py: the job table, its background worker, and both at once.
pub mod Store
pub mod Rows
pub mod Claims
pub mod Listing
pub mod Worker
pub mod Drain
pub mod System
pub mod Evolution
pub mod Tracking
pub mod Changes
pub mod Lifecycle
mod Examples
