-- ===== src/Workflows.antt =====
-- workflows: the programming model of a task's state graph.
pub mod Policy
pub mod Graph
pub mod Base
pub mod Module
mod Tests
