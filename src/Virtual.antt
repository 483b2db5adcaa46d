-- ===== src/Virtual.antt =====
-- The virtual drivers: the functions of kernel_mode.c in a user's process, over the co-simulation.
pub mod Access
pub mod Refines
pub mod Calls
pub mod Packet
pub mod Semaphore
pub mod Shm
pub mod Posix
pub mod Arm
pub mod Tcp
