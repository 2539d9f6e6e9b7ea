-- ===== src/Tasks.antt =====
-- The fibers and the scheduler of acid/common.
pub mod Fiber
pub mod Scheduler
