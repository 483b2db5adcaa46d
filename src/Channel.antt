-- ===== src/Channel.antt =====
-- library/Async_channel: the packets that pass between the threads outside SystemC and the
-- simulation, and the channel that they pass through.
pub mod Packet
pub mod Async
