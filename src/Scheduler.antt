-- ===== src/Scheduler.antt =====
-- kernel/scheduler/schedulerDecls.hpp and scheduler.cpp: threads, priorities and the sort by priority.
pub mod Thread
pub mod Run
pub mod Sort
