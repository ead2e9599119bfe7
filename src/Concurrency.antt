-- ===== src/Concurrency.antt =====
-- The concurrency primitives: include/cornet/concurrency and their sources under src.
pub mod Semaphore
pub mod TimerWheel
