-- ===== src/Tools.antt =====
-- agent/guardrails.py, and `execute_tool` of agent/tools.py: every tool call passes the guardrails.
pub mod Guardrails
pub mod Check
pub mod Steps
pub mod Decision
pub mod Execute
pub mod Calls
pub mod Summaries
pub mod Execution
pub mod Examples
