-- ===== src/Proc.antt =====
-- kernel/proc: threads, their queues and the scheduler, mutexes and processes.
pub mod Fifo
pub mod Sched
pub mod Kmutex
pub mod Table
pub mod Exit
pub mod Kthread
pub mod Fork
mod Tests
