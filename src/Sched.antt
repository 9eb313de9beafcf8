-- ===== src/Sched.antt =====
-- The CPU schedulers of note5, note6 and note7.
pub mod Fcfs
pub mod RoundRobin
pub mod Mlfq
pub mod Multicore
