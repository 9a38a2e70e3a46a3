-- ===== src/Sessions.antt =====
-- agent/session_store.py: sessions that outlive a process.
pub mod Store
pub mod Rows
pub mod Saving
mod Examples
pub mod Refinement
