-- ===== src/Unit.antt =====
-- The units of pkg/unit: the registry that finds them, and the stores of their domains.
pub mod Errors
pub mod Execution
pub mod Schema
pub mod Page
pub mod Registry
pub mod Pipeline
pub mod Resource
pub mod Alert
pub mod Skill
pub mod Service
pub mod Examples
