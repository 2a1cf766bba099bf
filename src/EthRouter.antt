-- ===== src/EthRouter.antt =====
-- app/src/main/cpp/eth_router.c: packets from the link go to lwIP and back, through the translation
-- of addresses; and the loop of app/src/main/cpp/eth_mem.c that feeds it.
pub mod Forward
pub mod Backward
pub mod Rounds
pub mod Drain
mod Tests
use adapto_lite.Prelude.{
  ℕ, zero, suc, ◌+◌, ◌*◌, Option, none, some, List, [], ◌∷◌, Bool, true, false, leb, ◌==◌,
  if◌then◌else◌, inc32,
}
use adapto_lite.Prelude.Bytes.{Memory, write, get16, get32, bytes16, bytes32}
use adapto_lite.EthMem.State.{
  Run, done, em_assert, out_of_fuel, ◌>>=◌, EthMem, EthPbuf, eth_netifs, lwip_netif_id,
  test_netif_id, ble_netif_id,
}
use adapto_lite.EthMem.Bridge.{eth_router_add_bridge}
use adapto_lite.EthMem.Pbufs.{eth_pbuf_free_request, free_blk}
use adapto_lite.EthMem.Queues.{
  eth_queue_entry_free, eth_add_packet_to_output_queue, count_lost, take_input,
}
use adapto_lite.EthNat.{
  EthPktHdr, NatTab, Gnetif, NatResult, translated, no_match, forward_nat, backward_nat,
}

-- The bridge with its arrays of 100 entries, 400 buffers and 4 interfaces; the start of the task
-- changes nothing in it.
unfoldable pub eth_router_init : EthMem → EthMem
eth_router_init m = eth_router_add_bridge m 100 400 eth_netifs

-- The packed `struct ETH_PKT_HDR` at the address `a`.
unfoldable pub read_hdr : Memory → ℕ → EthPktHdr
read_hdr m a = record {
  dst_mac = record { mac32 = get32 m a; mac16 = get16 m (a + 4) };
  src_mac = record { mac32 = get32 m (a + 6); mac16 = get16 m (a + 10) };
  ethertype = get16 m (a + 12);
  tos_hdrl = m (a + 14);
  dscp = m (a + 15);
  len = get16 m (a + 16);
  id = get16 m (a + 18);
  frag_offs = get16 m (a + 20);
  ttl = m (a + 22);
  proto = m (a + 23);
  hdr_csum = get16 m (a + 24);
  ip_src = get32 m (a + 26);
  ip_dst = get32 m (a + 30);
  port_src = get16 m (a + 34);
  port_dst = get16 m (a + 36);
}

-- The assignments of the two translations, if there is one.
unfoldable pub write_dst : NatResult → Memory → ℕ → EthPktHdr → Memory
write_dst no_match m a pkt = m
write_dst translated m a pkt =
    write (write m (a + 30) (bytes32 pkt.ip_dst)) (a + 36) (bytes16 pkt.port_dst)

unfoldable pub write_src : NatResult → Memory → ℕ → EthPktHdr → Memory
write_src no_match m a pkt = m
write_src translated m a pkt =
    write (write m (a + 26) (bytes32 pkt.ip_src)) (a + 34) (bytes16 pkt.port_src)

-- The bridge with the table `nattab` and the counters of `struct ETH_ROUTER_STATS` in use.
pub record Router : Type 0 where
  pub mem : EthMem
  pub nattab : List NatTab
  pub in_test : ℕ
  pub in_ble : ℕ

-- The address of the packet of the entry `q`.
unfoldable pub packet : EthMem → ℕ → ℕ
packet m q = (m.pbuf (m.queue q).pbuf).payload

-- `forward_nat(block)` and `backward_nat(block)` on the bytes of the packet.
unfoldable pub forward_block : Gnetif → ℕ → Router → ℕ → Router
forward_block g now r q =
    let a : ℕ = packet r.mem q in
    let (res, tab, pkt) = forward_nat g now r.nattab (read_hdr r.mem.bytes a) in
    record r { mem = record (r.mem) { bytes = write_dst res r.mem.bytes a pkt }; nattab = tab }

unfoldable pub backward_block : Gnetif → Router → ℕ → Router
backward_block g r q =
    let a : ℕ = packet r.mem q in
    let (res, pkt) = backward_nat g r.nattab (read_hdr r.mem.bytes a) in
    record r { mem = record (r.mem) { bytes = write_src res r.mem.bytes a pkt } }

-- The packet and its entry are given up.
drop_block : Router → ℕ → Run Router
drop_block r q = eth_pbuf_free_request r.mem (r.mem.queue q).pbuf >>= λ m1.
    eth_queue_entry_free m1 q >>= λ m2. done (record r { mem = m2 })

count_in : ℕ → Router → Router
count_in src r =
    if src == test_netif_id
    then record r { in_test = inc32 r.in_test }
    else if src == ble_netif_id
    then record r { in_ble = inc32 r.in_ble }
    else r

-- The translation for the source interface, and the destination interface.
unfoldable pub translate : Gnetif → ℕ → Router → ℕ → ℕ → ℕ × Router
translate g now r q src =
    if src == ble_netif_id
    then (lwip_netif_id, forward_block g now r q)
    else if src == lwip_netif_id
    then (ble_netif_id, backward_block g r q)
    else (src, r)

unfoldable pub send_block_to : ℕ × Router → ℕ → Run Router
unfolding drop_block
send_block_to (dst, r) q =
    if leb eth_netifs dst
    then em_assert 23
    else if dst == 0
    then drop_block r q
    else eth_add_packet_to_output_queue r.mem q dst >>= λ m. done (record r { mem = m })

unfoldable pub eth_route_block : Gnetif → ℕ → Router → ℕ → Run Router
unfolding count_in drop_block
eth_route_block g now r q =
    let b : EthPbuf = r.mem.pbuf (r.mem.queue q).pbuf in
    let src : ℕ = b.if_idx in
    let r1 : Router = count_in src r in
    if b.ref == 0
    then em_assert 20
    else if leb eth_netifs src
    then em_assert 21
    else if src == 0
    then em_assert 22
    else if (r.mem.netif src).if_up == 0
    then drop_block (record r1 { mem = count_lost r1.mem src }) q
    else send_block_to (translate g now r1 q src) q

-- One unit of fuel for each buffer of the pool, and one for the empty queue.
abbrev free_blk_fuel : ℕ
free_blk_fuel = 401

free_pending : Router → Option ℕ → Run Router
free_pending r none = done r
free_pending r (some p) = free_blk free_blk_fuel r.mem >>= λ m. done (record r { mem = m })

-- The inner loop of `EthQueueTask`, on `fuel`; `clock` is what the clock shows at each round.
unfoldable pub route_all : Gnetif → (ℕ → ℕ) → ℕ → Router → Run Router
unfolding free_pending
route_all g clock zero r = out_of_fuel
route_all g clock (suc fuel) r = elim (take_input r.mem) [
  | none ↦ done r
  | some (q, m) ↦ eth_route_block g (clock fuel) (record r { mem = m }) q >>= λ r1.
      free_pending r1 r1.mem.pool.free_pbuf_q_begin >>= λ r2. route_all g clock fuel r2
]
