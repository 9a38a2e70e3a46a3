-- ===== src/Optimize.antt =====
-- agent/optimization_loop.py: the loop that infers a cause, runs an experiment and verifies it.
pub mod Loop
pub mod Bounds
pub mod Choice
mod Examples
