-- ===== src/Reconcile.antt =====
-- internal/controller/reconcilecontroller: the core that turns a pipeline into calls of its engines.
pub mod Records
pub mod World
pub mod Index
pub mod State
pub mod Resources
pub mod Promote
pub mod Release
pub mod Revise
pub mod Carry
pub mod Verbs
pub mod Publish
pub mod Substages
pub mod Stages
pub mod Apply
mod Tests
