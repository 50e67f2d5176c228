-- ===== src/Action.antt =====
-- action: the steps of a workflow.
pub mod Rules
pub mod Zod
pub mod Schema
pub mod Service
pub mod Numbering
pub mod Endpoints
