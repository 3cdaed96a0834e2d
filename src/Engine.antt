-- ===== src/Engine.antt =====
-- software/core/engine/: the policy that counts submissions and stops the run, and the scheduler
-- of the attempts.
pub mod StopPolicy
pub mod Scheduler
pub mod Round
pub mod Slot
