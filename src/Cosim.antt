-- ===== src/Cosim.antt =====
-- library/Async_sc_cosim_int/async_sc_cosim_int.cpp: the module that takes the requests of a virtual
-- driver into the simulation.
pub mod Setup
pub mod Tlm
pub mod Sysc
pub mod Os
pub mod Round
pub mod Request
pub mod Answers
pub mod Simulated
