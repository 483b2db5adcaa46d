-- ===== src/Firewall.antt =====
-- The SystemC model of the NoC firewall, example/Firewall_with_mem/firewall_with_mem.cpp.
pub mod Packet
pub mod Rule
pub mod Input
pub mod Switch
pub mod Output
pub mod Response
pub mod Setup
pub mod Registers
pub mod Direct
pub mod Transport
pub mod Module
