-- ===== src/Mutex.antt =====
-- mutex.cpp: the three locks, for any number of threads, one atomic access at a time in any order.
pub mod Flag
pub mod Fair
pub mod Spin
mod Tests
