-- ===== src/User.antt =====
-- user_mode.h of example/Demo_HARDWARE_firewall_ARM: the library through which programs reach the
-- driver. FW_USER_LOGS is not defined, as in the header.
pub mod Kernel
pub mod Access
pub mod Rules
pub mod Ports
pub mod Stats
pub mod Virtual
pub mod VirtualArm
