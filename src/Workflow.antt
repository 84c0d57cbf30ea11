-- ===== src/Workflow.antt =====
-- The workflow engine, pkg/workflow.
pub mod Types
pub mod Dsl
pub mod Refs
pub mod Schedule
pub mod Sort
pub mod Cycles
pub mod Validator
pub mod Resolver
pub mod Engine
pub mod Store
pub mod Examples
