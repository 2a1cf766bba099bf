-- ===== src/EthRouter/Forward.antt =====
-- app/src/main/cpp/eth_router.c: what becomes of a packet from the link.
use adapto_lite.Prelude.{
  ℕ, ◌+◌, ◌^◌, ◌≤◌, ◌<◌, ◌≡◌, ◌≢◌, ◌⊎◌, inl, inr, refl, sym, ap, ◌∙◌, List, [], ◌∷◌, ◌++◌, true,
  false, ◌==◌, inc32, htons, arith, length, get_or,
}
use adapto_lite.Prelude.Bytes.{
  Memory, update, write, write_below, write_above, get16, get32, bytes16, bytes32,
}
use adapto_lite.EthMem.State.{done, EthMem, ble_netif_id, lwip_netif_id}
use adapto_lite.EthMem.Queues.Rep.{Place, busy, in_output, QRep, QRep-same}
use adapto_lite.EthMem.Queues.{eth_add_packet_to_output_queue}
use adapto_lite.EthMem.Queues.Output.Add.{eth_add_packet_to_output_queue-QRep}
use adapto_lite.EthMem.Queues.Output.Bytes.{eth_add_packet_to_output_queue-bytes}
use adapto_lite.EthNat.{
  EthPktHdr, NatTab, Gnetif, translated, forward_nat, is_forwarded, nat_divert_port, zero_entry,
}
use adapto_lite.EthNat.Translate.{Holds, forward_nat-Holds}
use adapto_lite.EthRouter.{
  Router, read_hdr, write_dst, packet, forward_block, translate, send_block_to, count_in,
  eth_route_block,
}

pub get32-write : (m : Memory) (a x : ℕ) → get32 (write m a (bytes32 x)) a ≡ x
unfolding write
get32-write m a x = ground arith

pub get16-write : (m : Memory) (a x : ℕ) → get16 (write m a (bytes16 x)) a ≡ x
unfolding write
get16-write m a x = ground arith

pub get32_below :
    (m : Memory) (a : ℕ) (xs : List ℕ) (b : ℕ) → b + 3 < a → get32 (write m a xs) b ≡ get32 m b
get32_below m a xs b h = omega (
  arith,
  write_below m a xs b (omega (arith, h)),
  write_below m a xs (b + 1) (omega (arith, h)),
  write_below m a xs (b + 2) (omega (arith, h)),
  write_below m a xs (b + 2 + 1) (omega (arith, h)),
)

-- The memories agree outside the destination's fields.
OtherBytes : Memory → Memory → ℕ → Type 0
OtherBytes m k a = (b : ℕ) → (b < a + 30) ⊎ ((a + 34 ≤ b) × (b < a + 36)) → k b ≡ m b

write_dst-OtherBytes :
    (m : Memory) (a : ℕ) (pkt : EthPktHdr) → OtherBytes m (write_dst translated m a pkt) a
unfolding write_dst OtherBytes
write_dst-OtherBytes m a pkt b (inl h) =
    write_below _ (a + 36) (bytes16 pkt.port_dst) b (omega (arith, h))
    ∙ write_below m (a + 30) (bytes32 pkt.ip_dst) b h
write_dst-OtherBytes m a pkt b (inr h) =
    write_below _ (a + 36) (bytes16 pkt.port_dst) b h.1
    ∙ write_above m (a + 30) (bytes32 pkt.ip_dst) b (omega (arith, h.0))

-- The fields before the destination's address, and the source's port, are those of the old memory.
module _ (m k : Memory) (a : ℕ) (other : OtherBytes m k a) where
  same8 : (i : ℕ) → i < 30 → k (a + i) ≡ m (a + i)
  unfolding OtherBytes
  same8 i h = other (a + i) (inl (omega (arith, h)))

  same16 : (i : ℕ) → i < 29 → get16 k (a + i) ≡ get16 m (a + i)
  same16 i h =
      let p : a + (i + 1) ≡ a + i + 1 = omega arith in
      let high : k (a + i + 1) ≡ m (a + i + 1) =
        ap k (sym p) ∙ same8 (i + 1) (omega (arith, h)) ∙ ap m p in
      omega (arith, same8 i (omega (arith, h)), high)

  same32 : (i : ℕ) → i < 27 → get32 k (a + i) ≡ get32 m (a + i)
  same32 i h =
      let p : a + (i + 2) ≡ a + i + 2 = omega arith in
      let high : get16 k (a + i + 2) ≡ get16 m (a + i + 2) =
        ap (get16 k) (sym p) ∙ same16 (i + 2) (omega (arith, h)) ∙ ap (get16 m) p in
      omega (arith, same16 i (omega (arith, h)), high)

  same_port : get16 k (a + 34) ≡ get16 m (a + 34)
  unfolding OtherBytes
  same_port = omega (
    arith,
    other (a + 34) (inr (omega arith, omega arith)),
    other (a + 34 + 1) (inr (omega arith, omega arith)),
  )

  read_hdr-OtherBytes :
      (ip port : ℕ)
      → get32 k (a + 30) ≡ ip
      → get16 k (a + 36) ≡ port
      → read_hdr k a ≡ record (read_hdr m a) { ip_dst = ip; port_dst = port }
  unfolding read_hdr
  read_hdr-OtherBytes ip port e f =
      let z : a + 0 ≡ a = omega arith in
      let first : get32 k a ≡ get32 m a =
        ap (get32 k) (sym z) ∙ same32 0 (omega arith) ∙ ap (get32 m) z in
      rw
        (
          first,
          same16 4 (omega arith),
          same32 6 (omega arith),
          same16 10 (omega arith),
          same16 12 (omega arith),
          same8 14 (omega arith),
          same8 15 (omega arith),
          same16 16 (omega arith),
          same16 18 (omega arith),
          same16 20 (omega arith),
          same8 22 (omega arith),
          same8 23 (omega arith),
          same16 24 (omega arith),
          same32 26 (omega arith),
          same_port,
          e,
          f,
        )
        refl

read_hdr-write_dst :
    (m : Memory) (a : ℕ) (pkt : EthPktHdr)
    → read_hdr (write_dst translated m a pkt) a
      ≡ record (read_hdr m a) { ip_dst = pkt.ip_dst; port_dst = pkt.port_dst }
unfolding write_dst
read_hdr-write_dst m a pkt =
    let m1 : Memory = write m (a + 30) (bytes32 pkt.ip_dst) in
    read_hdr-OtherBytes m (write_dst translated m a pkt) a (write_dst-OtherBytes m a pkt) pkt.ip_dst
      pkt.port_dst
      (get32_below m1 (a + 36) (bytes16 pkt.port_dst) (a + 30) (omega arith)
        ∙ get32-write m (a + 30) pkt.ip_dst)
      (get16-write m1 (a + 36) pkt.port_dst)

-- A packet from the link goes through `forward_nat`.
forward_block-translated :
    (g : Gnetif) (now : ℕ) (r : Router) (q : ℕ) (tab : List NatTab)
    → forward_nat g now r.nattab (read_hdr r.mem.bytes (packet r.mem q)) ≡ (
      translated,
      tab,
      record (read_hdr r.mem.bytes (packet r.mem q)) {
        ip_dst = g.addr;
        port_dst = htons nat_divert_port;
      },
    )
    → (k : Memory) × (forward_block g now r q
        ≡ record r { mem = record (r.mem) { bytes = k }; nattab = tab })
      × (read_hdr k (packet r.mem q) ≡ record (read_hdr r.mem.bytes (packet r.mem q)) {
        ip_dst = g.addr;
        port_dst = htons nat_divert_port;
      })
unfolding forward_block
forward_block-translated g now r q tab e =
    let a : ℕ = packet r.mem q in
    let pkt : EthPktHdr = record (read_hdr r.mem.bytes a) {
      ip_dst = g.addr;
      port_dst = htons nat_divert_port;
    } in
    (write_dst translated r.mem.bytes a pkt, rw e refl, read_hdr-write_dst r.mem.bytes a pkt)

-- The packet of the entry `q` came from the link, which is up, and is for the internet; lwIP's
-- interface does not wait for a packet, and its queue has room.
pub record FromLink (g : Gnetif) (r : Router) (q : ℕ) : Type 0 where
  pub source : (r.mem.pbuf (r.mem.queue q).pbuf).if_idx ≡ ble_netif_id
  pub alive : (r.mem.pbuf (r.mem.queue q).pbuf).ref ≢ 0
  pub up : (r.mem.netif ble_netif_id).if_up ≢ 0
  pub ready : (r.mem.netif lwip_netif_id).callback_pending ≡ 0
  pub room : (r.mem.netif lwip_netif_id).q_output_len < (r.mem.netif lwip_netif_id).q_output_len_max
  pub limit : (r.mem.netif lwip_netif_id).q_output_len_max < 2 ^ 32
  pub forwarded : is_forwarded g (read_hdr r.mem.bytes (packet r.mem q)) ≡ true
  pub table : 0 < length r.nattab

forward_step :
    (g : Gnetif) (now : ℕ) (r r1 : Router) (q : ℕ) (m' : EthMem)
    → FromLink g r q
    → forward_block g now (record r { in_ble = inc32 r.in_ble }) q ≡ r1
    → eth_add_packet_to_output_queue r1.mem q lwip_netif_id ≡ done m'
    → eth_route_block g now r q ≡ done (record r1 { mem = m' })
unfolding eth_route_block count_in translate send_block_to
forward_step g now r r1 q m' h fb add =
    let alive : ((r.mem.pbuf (r.mem.queue q).pbuf).ref == 0) ≡ false = ground (arith, h.alive) in
    let up : ((r.mem.netif ble_netif_id).if_up == 0) ≡ false = ground (arith, h.up) in
    rw (alive, h.source, up, fb, add) refl

-- A packet for the internet from the link, which is up, where lwIP's interface does not wait and
-- has room in its queue, is put at the end of that queue, with the destination in its bytes
-- turned to the local port, the rest of its header as it was, and its connection in the table of
-- translations; no assertion of the router or of the queues fails.
pub eth_route_block-forward :
    (g : Gnetif) (now : ℕ) (r : Router) (q : ℕ) (place : ℕ → Place) (free input : List ℕ)
    (out : ℕ → List ℕ)
    → FromLink g r q
    → QRep r.mem place free input out
    → place q ≡ busy
    → (r' : Router) × (eth_route_block g now r q ≡ done r')
      × QRep r'.mem
          (update place q (in_output lwip_netif_id))
          free
          input
          (update out lwip_netif_id (out lwip_netif_id ++ q ∷ []))
      × (read_hdr r'.mem.bytes (packet r.mem q) ≡ record (read_hdr r.mem.bytes (packet r.mem q)) {
        ip_dst = g.addr;
        port_dst = htons nat_divert_port;
      })
      × (i : ℕ) × Holds (read_hdr r.mem.bytes (packet r.mem q)) (get_or r'.nattab i zero_entry)
eth_route_block-forward g now r q place free input out h rep b =
    let pkt = read_hdr r.mem.bytes (packet r.mem q) in
    let (i, tab, e, l, len, holds, time, rest) =
      forward_nat-Holds g now r.nattab pkt h.forwarded h.table in
    let r1 : Router = record r { in_ble = inc32 r.in_ble } in
    let (k, fb, hdr) = forward_block-translated g now r1 q tab e in
    let m1 : EthMem = record (r.mem) { bytes = k } in
    let rep1 =
      QRep-same r.mem m1 place free input out (λ s. refl)
        (λ j. (refl, refl, refl, refl, refl, refl)) refl refl refl rep in
    let (m', add, rep', lim) =
      eth_add_packet_to_output_queue-QRep m1 place q lwip_netif_id free input out rep1 b h.alive
        h.ready h.room h.limit in
    let same =
      eth_add_packet_to_output_queue-bytes m1 m' q lwip_netif_id h.alive h.ready h.room add in
    (
      record r1 { mem = m'; nattab = tab },
      forward_step g now r (record r1 { mem = m1; nattab = tab }) q m' h fb add,
      rep',
      ap (λ x. read_hdr x (packet r.mem q)) same ∙ hdr,
      i,
      holds,
    )
