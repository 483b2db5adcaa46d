-- ===== src/Board.antt =====
-- The memories and receivers that example/Demo_SC_firewall/main.cpp puts behind the firewall.
pub mod Memory
pub mod Receiver
pub mod Side
pub mod Direct
