-- ===== src/Coroutine.antt =====
-- The queue of tasks (spike/base/LFQueue.h) and the processor that runs them
-- (spike/coroutine/Processor.h and Processor.cpp), and the scheduler (Scheduler.cpp).
pub mod Queue
pub mod Processor
pub mod Scheduler
mod Tests
