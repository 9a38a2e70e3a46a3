-- ===== src/Inference.antt =====
-- agent/inference: the ranking of causes, and the feedback weights of the rules.
pub mod Scale
pub mod Weights
pub mod Bounds
mod Examples
pub mod Engine
pub mod Ranking
