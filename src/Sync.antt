-- ===== src/Sync.antt =====
-- The programs on locks, condition variables and semaphores.
pub mod BoundedBuffer
pub mod ReaderWriter
pub mod TicketLock
pub mod Locked
pub mod Unlocked
pub mod SimulatedSpinlock
pub mod LockOrder
pub mod BackOff
pub mod ThreadPool
pub mod SemaphoreBuffer
pub mod ResourcePool
