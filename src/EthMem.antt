-- ===== src/EthMem.antt =====
-- app/src/main/cpp/eth_mem.h and eth_mem.c: the packet buffers, the queue entries and the queues
-- between the interfaces and the router.
pub mod State
pub mod Pbufs
pub mod Queues
pub mod Bridge
pub mod Tests
