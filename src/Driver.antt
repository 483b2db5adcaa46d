-- ===== src/Driver.antt =====
-- The Linux driver of the firewall: example/Demo_HARDWARE_firewall_ARM/kernel_mode.c with its
-- headers init_modules.h and ioctl_fw.h, with FW_KERN_LOGS defined and FW_KERN_LOGS2 not, as there.
pub mod Machine
pub mod Map
pub mod Rules
pub mod Bram
pub mod Packets
pub mod Stats
pub mod Ioctl
pub mod Load
