-- ===== src/Tasks.antt =====
-- tasks: the runtime of the workflows, and the placement of tasks on resources.
pub mod Engine
pub mod Placement
pub mod Registry
pub mod Cascade
pub mod Lifecycle
