-- ===== src/Params.antt =====
-- agent/param_mapper.py: the parameters of the Innovus flow.
pub mod Mapper
pub mod Validity
mod Examples
