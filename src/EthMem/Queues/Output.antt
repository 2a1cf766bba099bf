-- ===== src/EthMem/Queues/Output.antt =====
-- `eth_get_packet` and `eth_add_packet_to_output_queue`
pub mod Get
pub mod Add
pub mod Send
pub mod Bytes
