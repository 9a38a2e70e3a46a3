-- ===== src/CustomTools.antt =====
-- agent/custom_tools.py, and the part of agent/tools.py that binds custom tools to the registry.
pub mod Spec
pub mod Load
pub mod Bindings
pub mod Names
pub mod Trust
pub mod Sound
pub mod Checks
pub mod Returns
pub mod Gathered
pub mod Registry
mod Examples
