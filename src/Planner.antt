-- ===== src/Planner.antt =====
-- agent/planner.py: the agent's loop over the language model and the tools.
pub mod Model
pub mod React
pub mod Limits
pub mod Refresh
pub mod Bounds
pub mod Agents
pub mod Gate
pub mod Cases
pub mod Caching
pub mod Prompt
pub mod Reading
pub mod Request
pub mod Retry
pub mod Waiting
pub mod Pairing
mod Examples
pub mod Blocks
