-- ===== src/EthRouter/Backward.antt =====
-- app/src/main/cpp/eth_router.c: what becomes of lwIP's answers.
use adapto_lite.Prelude.{
  ℕ, ◌+◌, ◌^◌, ◌≤◌, ◌<◌, ◌≡◌, ◌≢◌, refl, sym, ap, ◌∙◌, List, [], ◌∷◌, ◌++◌, true, false, ◌==◌,
  arith, length, All,
}
use adapto_lite.Prelude.Bytes.{
  Memory, update, write, write_below, write_above, get16, get32, bytes16, bytes32,
}
use adapto_lite.EthMem.State.{done, EthMem, ble_netif_id, lwip_netif_id}
use adapto_lite.EthMem.Queues.Rep.{Place, busy, in_output, QRep, QRep-same}
use adapto_lite.EthMem.Queues.{eth_add_packet_to_output_queue}
use adapto_lite.EthMem.Queues.Output.Add.{eth_add_packet_to_output_queue-QRep}
use adapto_lite.EthMem.Queues.Output.Bytes.{eth_add_packet_to_output_queue-bytes}
use adapto_lite.EthNat.{
  EthPktHdr, NatTab, Gnetif, translated, forward_nat, backward_nat, is_forwarded,
}
use adapto_lite.EthNat.Translate.{Leads, Answer, forward_nat-backward_nat}
use adapto_lite.EthRouter.Forward.{get32-write, get16-write, get32_below}
use adapto_lite.EthRouter.{
  Router, read_hdr, write_src, packet, backward_block, translate, send_block_to, count_in,
  eth_route_block,
}

-- The bytes from `lo` to `hi` of the packet are the same.
Within : Memory → Memory → ℕ → ℕ → ℕ → Type 0
Within m k a lo hi = (i : ℕ) → lo ≤ i → i < hi → k (a + i) ≡ m (a + i)

module _ (m k : Memory) (a lo hi : ℕ) (same : Within m k a lo hi) where
  same8 : (i : ℕ) → lo ≤ i → i < hi → k (a + i) ≡ m (a + i)
  unfolding Within
  same8 i l h = same i l h

  same16 : (i : ℕ) → lo ≤ i → i + 1 < hi → get16 k (a + i) ≡ get16 m (a + i)
  same16 i l h =
      let p : a + (i + 1) ≡ a + i + 1 = omega arith in
      let high : k (a + i + 1) ≡ m (a + i + 1) =
        ap k (sym p) ∙ same8 (i + 1) (omega (arith, l)) h ∙ ap m p in
      omega (arith, same8 i l (omega (arith, h)), high)

  same32 : (i : ℕ) → lo ≤ i → i + 3 < hi → get32 k (a + i) ≡ get32 m (a + i)
  same32 i l h =
      let p : a + (i + 2) ≡ a + i + 2 = omega arith in
      let high : get16 k (a + i + 2) ≡ get16 m (a + i + 2) =
        ap (get16 k) (sym p)
        ∙ same16 (i + 2) (omega (arith, l)) (omega (arith, h))
        ∙ ap (get16 m) p in
      omega (arith, same16 i l (omega (arith, h)), high)

read_hdr-Within :
    (m k : Memory) (a ip port : ℕ)
    → Within m k a 0 26
    → Within m k a 30 34
    → Within m k a 36 38
    → get32 k (a + 26) ≡ ip
    → get16 k (a + 34) ≡ port
    → read_hdr k a ≡ record (read_hdr m a) { ip_src = ip; port_src = port }
unfolding read_hdr
read_hdr-Within m k a ip port w1 w2 w3 e f =
    let z : a + 0 ≡ a = omega arith in
    let first : get32 k a ≡ get32 m a =
      ap (get32 k) (sym z) ∙ same32 m k a 0 26 w1 0 (omega arith) (omega arith) ∙ ap (get32 m) z in
    rw
      (
        first,
        same16 m k a 0 26 w1 4 (omega arith) (omega arith),
        same32 m k a 0 26 w1 6 (omega arith) (omega arith),
        same16 m k a 0 26 w1 10 (omega arith) (omega arith),
        same16 m k a 0 26 w1 12 (omega arith) (omega arith),
        same8 m k a 0 26 w1 14 (omega arith) (omega arith),
        same8 m k a 0 26 w1 15 (omega arith) (omega arith),
        same16 m k a 0 26 w1 16 (omega arith) (omega arith),
        same16 m k a 0 26 w1 18 (omega arith) (omega arith),
        same16 m k a 0 26 w1 20 (omega arith) (omega arith),
        same8 m k a 0 26 w1 22 (omega arith) (omega arith),
        same8 m k a 0 26 w1 23 (omega arith) (omega arith),
        same16 m k a 0 26 w1 24 (omega arith) (omega arith),
        same32 m k a 30 34 w2 30 (omega arith) (omega arith),
        same16 m k a 36 38 w3 36 (omega arith) (omega arith),
        e,
        f,
      )
      refl

read_hdr-write_src :
    (m : Memory) (a : ℕ) (pkt : EthPktHdr)
    → read_hdr (write_src translated m a pkt) a
      ≡ record (read_hdr m a) { ip_src = pkt.ip_src; port_src = pkt.port_src }
unfolding write_src Within
read_hdr-write_src m a pkt =
    let ip = bytes32 pkt.ip_src in
    let port = bytes16 pkt.port_src in
    let m1 : Memory = write m (a + 26) ip in
    read_hdr-Within m (write m1 (a + 34) port) a pkt.ip_src pkt.port_src
      (λ i l h.
        write_below m1 (a + 34) port (a + i) (omega (arith, h))
        ∙ write_below m (a + 26) ip (a + i) (omega (arith, h)))
      (λ i l h.
        write_below m1 (a + 34) port (a + i) (omega (arith, h))
        ∙ write_above m (a + 26) ip (a + i) (omega (arith, l)))
      (λ i l h.
        write_above m1 (a + 34) port (a + i) (omega (arith, l))
        ∙ write_above m (a + 26) ip (a + i) (omega (arith, l)))
      (get32_below m1 (a + 34) port (a + 26) (omega arith) ∙ get32-write m (a + 26) pkt.ip_src)
      (get16-write m1 (a + 34) pkt.port_src)

-- The packet of the entry `q` came from lwIP, whose interface is up; the link does not wait for a
-- packet, and its queue has room.
pub record FromLwip (r : Router) (q : ℕ) : Type 0 where
  pub source : (r.mem.pbuf (r.mem.queue q).pbuf).if_idx ≡ lwip_netif_id
  pub alive : (r.mem.pbuf (r.mem.queue q).pbuf).ref ≢ 0
  pub up : (r.mem.netif lwip_netif_id).if_up ≢ 0
  pub ready : (r.mem.netif ble_netif_id).callback_pending ≡ 0
  pub room : (r.mem.netif ble_netif_id).q_output_len < (r.mem.netif ble_netif_id).q_output_len_max
  pub limit : (r.mem.netif ble_netif_id).q_output_len_max < 2 ^ 32

backward_step :
    (g : Gnetif) (now : ℕ) (r r1 : Router) (q : ℕ) (m' : EthMem)
    → FromLwip r q
    → backward_block g r q ≡ r1
    → eth_add_packet_to_output_queue r1.mem q ble_netif_id ≡ done m'
    → eth_route_block g now r q ≡ done (record r1 { mem = m' })
unfolding eth_route_block count_in translate send_block_to
backward_step g now r r1 q m' h fb add =
    let alive : ((r.mem.pbuf (r.mem.queue q).pbuf).ref == 0) ≡ false = ground (arith, h.alive) in
    let up : ((r.mem.netif lwip_netif_id).if_up == 0) ≡ false = ground (arith, h.up) in
    rw (alive, h.source, up, fb, add) refl

-- The packet `pkt` was translated with the table `tab`, in which all connections of its sender lead to
-- its receiver. Then lwIP's answer to it, where lwIP's interface is up, the link does not wait and
-- has room in its queue, is put at the end of the link's queue, and in its bytes it comes from the
-- receiver of `pkt`, the rest of its header as it was; no assertion fails, and the table stays.
pub eth_route_block-reply :
    (g : Gnetif) (then_ now : ℕ) (tab : List NatTab) (pkt : EthPktHdr) (r : Router) (q : ℕ)
    (place : ℕ → Place) (free input : List ℕ) (out : ℕ → List ℕ)
    → is_forwarded g pkt ≡ true
    → 0 < length tab
    → All (Leads pkt) tab
    → r.nattab ≡ (forward_nat g then_ tab pkt).1
    → Answer g pkt (read_hdr r.mem.bytes (packet r.mem q))
    → FromLwip r q
    → QRep r.mem place free input out
    → place q ≡ busy
    → (r' : Router) × (eth_route_block g now r q ≡ done r')
      × QRep r'.mem
          (update place q (in_output ble_netif_id))
          free
          input
          (update out ble_netif_id (out ble_netif_id ++ q ∷ []))
      × (read_hdr r'.mem.bytes (packet r.mem q) ≡ record (read_hdr r.mem.bytes (packet r.mem q)) {
        ip_src = pkt.ip_dst;
        port_src = pkt.port_dst;
      })
      × (r'.nattab ≡ r.nattab)
unfolding backward_block
eth_route_block-reply g then_ now tab pkt r q place free input out f len leads e answer h rep b =
    let a : ℕ = packet r.mem q in
    let hdr = read_hdr r.mem.bytes a in
    let back : EthPktHdr = record hdr { ip_src = pkt.ip_dst; port_src = pkt.port_dst } in
    let nat : backward_nat g r.nattab hdr ≡ (translated, back) =
      ap (λ t. backward_nat g t hdr) e
      ∙ forward_nat-backward_nat g then_ tab pkt hdr f len leads answer in
    let k : Memory = write_src translated r.mem.bytes a back in
    let m1 : EthMem = record (r.mem) { bytes = k } in
    let rep1 =
      QRep-same r.mem m1 place free input out (λ s. refl)
        (λ j. (refl, refl, refl, refl, refl, refl)) refl refl refl rep in
    let (m', add, rep', lim) =
      eth_add_packet_to_output_queue-QRep m1 place q ble_netif_id free input out rep1 b h.alive
        h.ready h.room h.limit in
    let same =
      eth_add_packet_to_output_queue-bytes m1 m' q ble_netif_id h.alive h.ready h.room add in
    (
      record r { mem = m' },
      backward_step g now r (record r { mem = m1 }) q m' h (rw nat refl) add,
      rep',
      ap (λ x. read_hdr x a) same ∙ read_hdr-write_src r.mem.bytes a back,
      refl,
    )
