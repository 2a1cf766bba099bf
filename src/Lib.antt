-- ===== src/Lib.antt =====
-- The packet core of the native library of adapto_lite (app/src/main/cpp): an Ethernet bridge in
-- user space between lwIP and a Bluetooth link.
--
-- Parts and files:
--   Prelude          numbers, lists, machine words, byte memory, linked chains, loops
--   Xlib             app/src/main/cpp/xlib.c, task notifications (TNotifyAdd, TNotifyWait)
--   EthMem.State     app/src/main/cpp/eth_mem.h, the structures
--   EthMem.Pbufs     app/src/main/cpp/eth_mem.c, packet buffers: eth_pbuf_alloc,
--                    eth_pbuf_free_request, free_blk
--   EthMem.Queues    app/src/main/cpp/eth_mem.c, queue entries and queues:
--                    eth_add_packet_to_router_queue, eth_get_packet,
--                    eth_add_packet_to_output_queue, eth_mem_clone
--   EthMem.Bridge    app/src/main/cpp/eth_mem.c, eth_router_add_bridge
--   BleEth           app/src/main/cpp/ble_eth.c, chunks of datagrams: get_next_chunk,
--                    process_dgram_asm; eth_ble_if_init in Init
--   BleTcp           app/src/main/cpp/ble_tcp.c, acknowledgement and numbering of chunks:
--                    BLE_TCP_Task, process_gatt_data, gatt_conn_reset; the other notifications and
--                    ble_tcp_init in Init; two ends as a step relation in Ends
--   BtDrv            app/src/main/cpp/bt_drv.c, the calls of the Java service and of it: bt_send,
--                    char_wr_cbk, new_dg_from_bt, eth_ble_stack_control; as a step relation in
--                    Quiet, JNI_OnLoad with MX_LWIP_Init of app/src/main/cpp/lwip/lwip.c in Load,
--                    the speeds of status_thread in Status
--   EthNat           app/src/main/cpp/eth_nat.c, translation of addresses: forward_nat,
--                    backward_nat
--   NatSockets       app/src/main/cpp/eth_nat.c, the sockets of the translated connections: NAT_Task,
--                    NAT_RX_Task, nat_tcp_recv, nat_tcp_err, nat_accept_fn, nat_close_so_conn,
--                    nat_close_lw_conn; the rounds with select in Rounds, eth_nat_init in Init
--   EthRouter        app/src/main/cpp/eth_router.c, eth_route_block, with the headers laid over the
--                    packets' bytes; app/src/main/cpp/eth_mem.c, the loop of EthQueueTask
--   LwipIf           app/src/main/cpp/lwip/eth_router_if_lwip.c, lwIP's interface of the bridge;
--                    eth_lwip_if_init in Init
--   EthQueue         app/src/main/cpp/eth_queue.c, the queue between two threads
--   DnsProxy         app/src/main/cpp/lwip/dnsproxy.c, DNS queries and answers: pdns_recv,
--                    query_decode, dns_encode_name, dnsproxy_thread, dnsproxy_init
--   NetTopology      app/src/main/cpp/lwip/net_topology.c, the table of devices:
--                    topology_new_dgram, topo_periodic
--   NetRaw           app/src/main/cpp/lwip/net_raw.c, frames with a checksum: ethernet_send_raw,
--                    dg_check, lwip_customproto; in Senders the frames of net_topology.c
--
-- The operations of eth_mem.c work on one state `EthMem`: the arrays of buffers, entries and
-- interfaces, the byte memory of the buffers and the pool's pointers. A pointer into an array is
-- the index of the element, NULL is `none`. A driver such as ble_eth.c has its static variables
-- in a record of its own that holds the `EthMem`. The Bluetooth side takes packets with
-- eth_get_packet or from its callback, cuts them, and hands what it puts together to
-- eth_add_packet_to_router_queue. The router takes packets from that queue, translates their
-- addresses and puts them into the output queue of the other side: packets from the Bluetooth
-- link go to lwIP, and lwIP's to the link. What lwIP receives on the local port of the translation goes to
-- sockets of the system, and queries for names to its resolver. Frames of the program's own
-- protocols carry the table of devices.
--
-- An operation that can meet `EM_ASSERT(n)` or a bad access returns a `Run`: the endless loop of
-- the assertion and the access are results of their own, so that a theorem with `done` says that
-- neither happens. Callbacks are recorded as events in the order of the calls. The semaphores
-- `ETH_MEM_PROTECT` make each critical section one step; an operation is run as one step here,
-- which is what they give for the parts inside them. Counters are 32-bit words with their
-- wrap-around.
--
-- Bytes laid over by structures are little-endian words of a `Memory`; a pointer is an address in it.
--
-- The loop `free_blk` runs on fuel, one unit for each buffer that waits and one for the empty queue;
-- `fragments` describes a datagram by at most fuel + 1 chunks, and 9 is enough for 1600 bytes.
-- `decode_labels` has one unit more than the message has bytes, as each round takes a byte;
-- `encode_name` has 512, the size of a name's array; `drain` has 100, the places of the ring; `seek`
-- has two more than the offset, as each round but the first lowers it, unless a packet of the chain
-- has no bytes. `take_all_packets` empties lwIP's queue; its fuel is an argument, 1 in
-- `jni_on_load`, as that queue is empty at the start of the library. `route_all` and `send_blocks`,
-- which run as long as packets come in, take their fuel as an argument, and `send_rounds` its number
-- of rounds. The other loops are recursions on a table, a count or a list.
--
-- What runs outside the library is an argument: what the Java driver's `bt_send` answers, the random
-- bytes, what `select`, `send` and `recv` return, lwIP's answers, and the frames with which lwIP
-- announces its address while its interface comes up. A step relation takes them anew in each step.
--
-- Not modelled: the copy of lwIP, the DHCP server and the mDNS responder (other projects' code), the
-- start of the threads, settings.c (constants); of the files above, the list of counters that
-- status_thread shows, frameThread, the socket options, tests that nothing starts, and the log.
pub mod Prelude
pub mod Xlib
pub mod EthMem
pub mod BleEth
pub mod EthNat
pub mod BleTcp
pub mod NetTopology
pub mod NetRaw
pub mod DnsProxy
pub mod EthRouter
pub mod EthQueue
pub mod NatSockets
pub mod LwipIf
pub mod BtDrv
