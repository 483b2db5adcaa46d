-- ===== src/System.antt =====
-- The driver and the firewall together: kernel_mode.c on the one side of the bus and
-- firewall_with_mem.cpp on the other, which have the addresses, the registers' order and the packet
-- format in common only by convention.
pub mod AddressMap
pub mod RuleSetup
pub mod Access
pub mod Policy
pub mod Storage
pub mod Simulated
pub mod Delivery
pub mod Driven
pub mod Written
