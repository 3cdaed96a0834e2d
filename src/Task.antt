-- ===== src/Task.antt =====
-- software/core/task/: the dynamic state of one run, by component, and the methods of
-- `ExecutionState` over them.
pub mod Key
pub mod ReverseFill
pub mod Progress
pub mod Proxy
pub mod Joint
pub mod Distribution
pub mod State
pub mod Methods
