-- ===== src/Memory.antt =====
-- agent/memory.py: the message history of a session, what is sent and stored of it, and the
-- scratchpad of session facts. The children have a part each; `Groups` is the loop that four
-- methods share.
pub mod Groups
pub mod History
pub mod Wire
pub mod Pairing
pub mod Eviction
pub mod RoundTrip
pub mod Budget
pub mod Requests
pub mod Scratchpad
pub mod Facts
pub mod Kept
mod Examples
