-- ===== src/Tests.antt =====
-- The theorems at concrete inputs.
pub mod Firewall
pub mod Driver
pub mod System
pub mod Module
pub mod Board
pub mod Load
pub mod Policy
pub mod Helper
pub mod Channel
pub mod Cosim
pub mod Setup
pub mod Virtual
pub mod Simulated
pub mod User
