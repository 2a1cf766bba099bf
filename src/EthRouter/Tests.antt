-- ===== src/EthRouter/Tests.antt =====
-- app/src/main/cpp/eth_router.c on a UDP packet from the link, for 8.8.8.8.
use adapto_lite.Prelude.{
  ℕ, ◌≡◌, refl, inl, inr, none, some, [], ◌∷◌, true, arith, get_or, All, htons,
}
use adapto_lite.Prelude.Bytes.{Memory, update, write}
use adapto_lite.EthMem.State.{done, EthMem, st_allocated, st_in_queue, lwip_netif_id, ble_netif_id}
use adapto_lite.EthMem.Queues.Rep.{Place, busy, in_input, in_output, QRep}
use adapto_lite.EthMem.Tests.{used_mem}
use adapto_lite.EthNat.{
  EthPktHdr, forward_nat, Gnetif, is_forwarded, is_local, bit_and, nat_divert_port, zero_entry,
}
use adapto_lite.EthNat.Translate.{Holds, Leads, Answer}
use adapto_lite.EthMem.Queues.Kept.{Kept}
use adapto_lite.EthRouter.{Router, read_hdr, packet, eth_route_block, route_all}
use adapto_lite.EthRouter.Rounds.{destination, IsRoutable, Routable}
use adapto_lite.EthRouter.Drain.{routed, route_all-routed}
use adapto_lite.EthRouter.Backward.{FromLwip, eth_route_block-reply}
use adapto_lite.EthRouter.Forward.{FromLink, eth_route_block-forward}

-- The header from the type on: from 10.0.0.5, port 1000, to 8.8.8.8, port 53.
abbrev datagram : Memory
datagram =
    write (λ i. 0) 12
      (8 ∷ 0 ∷ 69 ∷ 0 ∷ 0 ∷ 40 ∷ 0 ∷ 1 ∷ 0 ∷ 0 ∷ 64 ∷ 17 ∷ 0 ∷ 0 ∷ 10 ∷ 0 ∷ 0 ∷ 5 ∷ 8 ∷ 8 ∷ 8 ∷ 8
        ∷ 3 ∷ 232 ∷ 0 ∷ 53 ∷ [])

-- The entry 0 holds the buffer 0, which came from the link; all queues are empty.
abbrev link_mem : EthMem
link_mem = record used_mem {
  bytes = datagram;
  queue = λ q. record { next = none; pbuf = 0; state = st_allocated };
  netif = λ i. record (used_mem.netif 0) { q_output_len_max = 20; if_up = 1 };
}

abbrev all_busy : ℕ → Place
all_busy q = busy

link_mem-QRep : QRep link_mem all_busy [] [] (λ i. [])
link_mem-QRep = record {
  free_chain = refl;
  free_distinct = tt;
  free_places = tt;
  input_chain = refl;
  input_end = refl;
  input_distinct = tt;
  input_places = tt;
  outputs = λ i. record {
    chain = refl;
    end = refl;
    distinct = tt;
    places = tt;
    len = refl;
    bound = omega arith;
    waiting = λ z. refl;
    registered = λ z. absurd (z refl);
  };
  states = λ q e. cc e;
}

abbrev own : Gnetif
own = record { addr = 167815178; netmask = 16777215 }

abbrev router : Router
router = record { mem = link_mem; nattab = zero_entry ∷ []; in_test = 0; in_ble = 0 }

forwarded : is_forwarded own (read_hdr datagram (packet link_mem 0)) ≡ true
unfolding is_forwarded is_local bit_and read_hdr packet write
forwarded = refl

from_link : FromLink own router 0
from_link = record {
  source = refl;
  alive = omega arith;
  up = omega arith;
  ready = refl;
  room = omega arith;
  limit = omega arith;
  forwarded = forwarded;
  table = omega arith;
}

eth_route_block-forward_example :
    (r' : Router) × (eth_route_block own 100 router 0 ≡ done r')
    × QRep r'.mem
        (update all_busy 0 (in_output lwip_netif_id))
        []
        []
        (update (λ i. []) lwip_netif_id (0 ∷ []))
    × (read_hdr r'.mem.bytes (packet link_mem 0) ≡ record (read_hdr datagram (packet link_mem 0)) {
      ip_dst = 167815178;
      port_dst = htons nat_divert_port;
    })
    × (i : ℕ) × Holds (read_hdr datagram (packet link_mem 0)) (get_or r'.nattab i zero_entry)
eth_route_block-forward_example =
    eth_route_block-forward own 100 router 0 all_busy [] [] (λ i. []) from_link link_mem-QRep refl

-- From 10.0.0.5, port 1000, to 8.8.8.8, port 53; and the answer to it as lwIP sends it.
abbrev asked : EthPktHdr
asked = read_hdr datagram (packet link_mem 0)

abbrev answer_bytes : Memory
answer_bytes =
    write (λ i. 0) 12
      (8 ∷ 0 ∷ 69 ∷ 0 ∷ 0 ∷ 40 ∷ 0 ∷ 2 ∷ 0 ∷ 0 ∷ 64 ∷ 17 ∷ 0 ∷ 0 ∷ 10 ∷ 168 ∷ 0 ∷ 10 ∷ 10 ∷ 0 ∷ 0
        ∷ 5 ∷ 4 ∷ 210 ∷ 3 ∷ 232 ∷ [])

abbrev lwip_mem : EthMem
lwip_mem = record link_mem {
  bytes = answer_bytes;
  pbuf = λ p. record (used_mem.pbuf 0) { if_idx = lwip_netif_id };
}

abbrev answering : Router
answering = record {
  mem = lwip_mem;
  nattab = (forward_nat own 100 (zero_entry ∷ []) asked).1;
  in_test = 0;
  in_ble = 0;
}

answer : Answer own asked (read_hdr answer_bytes (packet lwip_mem 0))
unfolding read_hdr packet write
answer = record {
  ethertype = refl;
  ip_src = refl;
  port_src = refl;
  proto = refl;
  ip_dst = refl;
  port_dst = refl;
}

lwip_mem-QRep : QRep lwip_mem all_busy [] [] (λ i. [])
lwip_mem-QRep = record {
  free_chain = refl;
  free_distinct = tt;
  free_places = tt;
  input_chain = refl;
  input_end = refl;
  input_distinct = tt;
  input_places = tt;
  outputs = link_mem-QRep.outputs;
  states = λ q e. cc e;
}

from_lwip : FromLwip answering 0
from_lwip = record {
  source = refl;
  alive = omega arith;
  up = omega arith;
  ready = refl;
  room = omega arith;
  limit = omega arith;
}

leads : All (Leads asked) (zero_entry ∷ [])
unfolding read_hdr packet write
leads = ((λ a b c. cc), tt)

eth_route_block-reply_example :
    (r' : Router) × (eth_route_block own 200 answering 0 ≡ done r')
    × QRep r'.mem
        (update all_busy 0 (in_output ble_netif_id))
        []
        []
        (update (λ i. []) ble_netif_id (0 ∷ []))
    × (read_hdr r'.mem.bytes (packet lwip_mem 0)
        ≡ record (read_hdr answer_bytes (packet lwip_mem 0)) {
          ip_src = asked.ip_dst;
          port_src = asked.port_dst;
        })
    × (r'.nattab ≡ answering.nattab)
eth_route_block-reply_example =
    eth_route_block-reply own 100 200 (zero_entry ∷ []) asked answering 0 all_busy [] [] (λ i. [])
      forwarded (omega arith) leads refl answer from_lwip lwip_mem-QRep refl

-- The entry 0 holds a packet from the link, the entry 1 one from lwIP; both wait for the router.
abbrev waiting_mem : EthMem
waiting_mem = record link_mem {
  pbuf = update link_mem.pbuf 1 (record (used_mem.pbuf 0) { if_idx = lwip_netif_id });
  queue =
      update (update link_mem.queue 0 (record { next = some 1; pbuf = 0; state = st_in_queue })) 1
        (record { next = none; pbuf = 1; state = st_in_queue });
  pool = record (link_mem.pool) {
    q_input_begin = some 0;
    q_input_end = some 1;
    free_pbuf_q_begin = none;
    free_pbuf_q_end = none;
  };
}

abbrev waiting_place : ℕ → Place
waiting_place = update (update (λ q. busy) 0 in_input) 1 in_input

waiting_mem-QRep : QRep waiting_mem waiting_place [] (0 ∷ 1 ∷ []) (λ i. [])
waiting_mem-QRep = record {
  free_chain = refl;
  free_distinct = tt;
  free_places = tt;
  input_chain = (refl, (refl, refl));
  input_end = refl;
  input_distinct = ((omega arith, tt), (tt, tt));
  input_places = (refl, (refl, tt));
  outputs = λ i. record {
    chain = refl;
    end = refl;
    distinct = tt;
    places = tt;
    len = refl;
    bound = omega arith;
    waiting = λ z. refl;
    registered = λ z. absurd (z refl);
  };
  states = λ q e. ground (arith, e);
}

waiting_mem-Routable : Routable waiting_mem (0 ∷ 1 ∷ []) (λ i. [])
unfolding IsRoutable
waiting_mem-Routable = record {
  packets = ((omega arith, inl refl), ((omega arith, inr refl), tt));
  link = record { up = omega arith; ready = refl; room = omega arith; limit = omega arith };
  lwip = record { up = omega arith; ready = refl; room = omega arith; limit = omega arith };
  freed = refl;
}

route_all-routed_example :
    (r' : Router) × (place' : ℕ → Place) × (route_all own
        (λ k. 100)
        3
        (record router { mem = waiting_mem })
      ≡ done r')
    × QRep r'.mem place' [] []
        (update (update (λ i. []) lwip_netif_id (0 ∷ [])) ble_netif_id (1 ∷ []))
    × Kept waiting_mem r'.mem
unfolding routed destination
route_all-routed_example =
    route_all-routed own (λ k. 100) 3 (record router { mem = waiting_mem }) waiting_place []
      (0 ∷ 1 ∷ []) (λ i. []) waiting_mem-QRep waiting_mem-Routable (omega arith)
