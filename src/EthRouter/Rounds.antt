-- ===== src/EthRouter/Rounds.antt =====
-- app/src/main/cpp/eth_mem.c, a round of the inner loop of EthQueueTask, with eth_router.c.
use adapto_lite.Prelude.{
  ℕ, ◌+◌, ◌^◌, ◌≤◌, ◌<◌, ◌≡◌, ◌≢◌, ◌⊎◌, inl, inr, refl, ap, ◌∙◌, none, some, List, [], ◌∷◌, ◌++◌,
  false, ◌==◌, if◌then◌else◌, arith, length, All, inc32, leb,
}
use adapto_lite.Prelude.Bytes.{Memory, update}
use adapto_lite.EthMem.State.{done, EthMem, EthNetif, eth_netifs, ble_netif_id, lwip_netif_id}
use adapto_lite.EthMem.Queues.{take_input, eth_add_packet_to_output_queue}
use adapto_lite.EthMem.Queues.Rep.{Place, busy, in_output, QRep, QRep-same}
use adapto_lite.EthMem.Queues.Input.{take_input-QRep}
use adapto_lite.EthMem.Queues.Output.Add.{eth_add_packet_to_output_queue-QRep}
use adapto_lite.EthMem.Queues.Kept.{
  Kept, Kept-trans, take_input-Kept, eth_add_packet_to_output_queue-Kept,
}
use adapto_lite.EthNat.{Gnetif}
use adapto_lite.EthRouter.{
  Router, forward_block, backward_block, translate, send_block_to, count_in, eth_route_block,
}

-- Packets from the link go to lwIP, the others to the link.
unfoldable pub destination : EthMem → ℕ → ℕ
destination m q =
    if (m.pbuf (m.queue q).pbuf).if_idx == ble_netif_id then lwip_netif_id else ble_netif_id

-- The packet of the entry `q` is in use and came from the link or from lwIP.
unfoldable pub IsRoutable : EthMem → ℕ → Type 0
IsRoutable m q =
    ((m.pbuf (m.queue q).pbuf).ref ≢ 0)
    × (((m.pbuf (m.queue q).pbuf).if_idx ≡ ble_netif_id)
        ⊎ ((m.pbuf (m.queue q).pbuf).if_idx ≡ lwip_netif_id))

-- The interface is up, its driver does not wait, and `len` packets are within its limit.
pub record IsOpen (n : EthNetif) (len : ℕ) : Type 0 where
  pub up : n.if_up ≢ 0
  pub ready : n.callback_pending ≡ 0
  pub room : len ≤ n.q_output_len_max
  pub limit : n.q_output_len_max < 2 ^ 32

-- All packets of the router's queue can go to their interfaces, and no buffer waits to be freed.
pub record Routable (m : EthMem) (input : List ℕ) (out : ℕ → List ℕ) : Type 0 where
  pub packets : All (IsRoutable m) input
  pub link : IsOpen (m.netif ble_netif_id) (length (out ble_netif_id) + length input)
  pub lwip : IsOpen (m.netif lwip_netif_id) (length (out lwip_netif_id) + length input)
  pub freed : m.pool.free_pbuf_q_begin ≡ none

-- The translation changes the packets' bytes only, and finds the destination.
record Translated (g : Gnetif) (now : ℕ) (r : Router) (q : ℕ) : Type 0 where
  bytes : Memory
  after : Router
  mem : after.mem ≡ record (r.mem) { bytes = bytes }
  step :
      translate g now
        (count_in (r.mem.pbuf (r.mem.queue q).pbuf).if_idx r)
        q
        (r.mem.pbuf (r.mem.queue q).pbuf).if_idx
      ≡ (destination r.mem q, after)

translate-Translated :
    (g : Gnetif) (now : ℕ) (r : Router) (q : ℕ) → IsRoutable r.mem q → Translated g now r q
unfolding translate count_in forward_block backward_block destination IsRoutable
translate-Translated g now r q (alive, inl e) =
    let after : Router = forward_block g now (record r { in_ble = inc32 r.in_ble }) q in
    record { bytes = after.mem.bytes; after = after; mem = refl; step = rw e refl }
translate-Translated g now r q (alive, inr e) =
    let after : Router = backward_block g r q in
    record { bytes = after.mem.bytes; after = after; mem = refl; step = rw e refl }

-- The interface that the packet came from is up.
SourceUp : EthMem → ℕ → Type 0
SourceUp m q = (m.netif (m.pbuf (m.queue q).pbuf).if_idx).if_up ≢ 0

-- A test of a source other than those two, and of the destination.
record Known (src dst : ℕ) : Type 0 where
  src_low : leb eth_netifs src ≡ false
  src_set : (src == 0) ≡ false
  dst_low : leb eth_netifs dst ≡ false
  dst_set : (dst == 0) ≡ false

IsRoutable-Known :
    (m : EthMem) (q : ℕ) → IsRoutable m q → Known (m.pbuf (m.queue q).pbuf).if_idx (destination m q)
unfolding IsRoutable destination
IsRoutable-Known m q (alive, inl e) =
    rw e (record { src_low = refl; src_set = refl; dst_low = refl; dst_set = refl })
IsRoutable-Known m q (alive, inr e) =
    rw e (record { src_low = refl; src_set = refl; dst_low = refl; dst_set = refl })

routed_block :
    (g : Gnetif) (now : ℕ) (r : Router) (q : ℕ) (t : Translated g now r q) (m' : EthMem)
    → IsRoutable r.mem q
    → SourceUp r.mem q
    → eth_add_packet_to_output_queue t.after.mem q (destination r.mem q) ≡ done m'
    → eth_route_block g now r q ≡ done (record (t.after) { mem = m' })
unfolding eth_route_block send_block_to IsRoutable SourceUp
routed_block g now r q t m' routable up add =
    let k = IsRoutable-Known r.mem q routable in
    let alive : ((r.mem.pbuf (r.mem.queue q).pbuf).ref == 0) ≡ false = ground (arith, routable.0) in
    let up' : ((r.mem.netif (r.mem.pbuf (r.mem.queue q).pbuf).if_idx).if_up == 0) ≡ false =
      ground (arith, up) in
    rw (alive, k.src_low, k.src_set, up', t.step, k.dst_low, k.dst_set, add) refl

pub IsRoutable-Kept : {m m' : EthMem} (q : ℕ) → Kept m m' → IsRoutable m q → IsRoutable m' q
unfolding IsRoutable
IsRoutable-Kept q k h = rw (k.entry q, k.pbuf) h

SourceUp-Kept : {m m' : EthMem} (q : ℕ) → Kept m m' → SourceUp m q → SourceUp m' q
unfolding SourceUp
SourceUp-Kept q k h = rw (k.entry q, k.pbuf, k.if_up _) h

bytes-Kept : (m : EthMem) (b : Memory) → Kept m (record m { bytes = b })
bytes-Kept m b = record {
  pbuf = refl;
  entry = λ q. refl;
  if_up = λ i. refl;
  pending = λ i. refl;
  limit = λ i. refl;
  freed = refl;
}

pub destination-Kept : {m m' : EthMem} (q : ℕ) → Kept m m' → destination m' q ≡ destination m q
unfolding destination
destination-Kept q k = rw (k.entry q, k.pbuf) refl

SourceUp-Routable :
    (m : EthMem) (q : ℕ) (input : List ℕ) (out : ℕ → List ℕ)
    → Routable m (q ∷ input) out
    → SourceUp m q
unfolding SourceUp IsRoutable
SourceUp-Routable m q input out h = elim h.packets.0.1 [
  | inl e ↦ rw e h.link.up
  | inr e ↦ rw e h.lwip.up
]

destination-IsOpen :
    (m : EthMem) (q : ℕ) (input : List ℕ) (out : ℕ → List ℕ)
    → Routable m (q ∷ input) out
    → IsOpen (m.netif (destination m q)) (length (out (destination m q)) + length (q ∷ input))
unfolding destination IsRoutable
destination-IsOpen m q input out h = elim h.packets.0.1 [
  | inl e ↦ rw e h.lwip
  | inr e ↦ rw e h.link
]

-- A round of the loop, and what it leaves.
pub record Round (g : Gnetif) (now : ℕ) (r : Router) (q : ℕ) (place : ℕ → Place)
    (free input : List ℕ) (out : ℕ → List ℕ) : Type 0 where
  pub taken : EthMem
  pub after : Router
  pub take : take_input r.mem ≡ some (q, taken)
  pub route : eth_route_block g now (record r { mem = taken }) q ≡ done after
  pub rep :
      QRep after.mem
        (update (update place q busy) q (in_output (destination r.mem q)))
        free
        input
        (update out (destination r.mem q) (out (destination r.mem q) ++ q ∷ []))
  pub kept : Kept r.mem after.mem

pub next-Round :
    (g : Gnetif) (now : ℕ) (r : Router) (q : ℕ) (place : ℕ → Place) (free input : List ℕ)
    (out : ℕ → List ℕ)
    → QRep r.mem place free (q ∷ input) out
    → Routable r.mem (q ∷ input) out
    → Round g now r q place free input out
unfolding IsRoutable
next-Round g now r q place free input out rep h =
    let (m1, take, rep1) = take_input-QRep r.mem place q free input out rep in
    let kept1 = take_input-Kept r.mem m1 q rep.input_chain.0 take in
    let routable = IsRoutable-Kept q kept1 h.packets.0 in
    let dst : ℕ = destination r.mem q in
    let t = translate-Translated g now (record r { mem = m1 }) q routable in
    let m2 : EthMem = record m1 { bytes = t.bytes } in
    let rep2 =
      QRep-same m1 m2 (update place q busy) free input out (λ s. refl)
        (λ j. (refl, refl, refl, refl, refl, refl)) refl refl refl rep1 in
    let o = destination-IsOpen r.mem q input out h in
    let ready : (m1.netif dst).callback_pending ≡ 0 = kept1.pending dst ∙ o.ready in
    let room : (m1.netif dst).q_output_len < (m1.netif dst).q_output_len_max =
      omega (arith, (rep1.outputs dst).len, kept1.limit dst, o.room) in
    let fits : (m1.netif dst).q_output_len_max < 2 ^ 32 = omega (arith, kept1.limit dst, o.limit) in
    let (m3, add, rep3, lim) =
      eth_add_packet_to_output_queue-QRep m2 (update place q busy) q dst free input out rep2
        (ground arith) routable.0 ready room fits in
    let kept3 = eth_add_packet_to_output_queue-Kept m2 m3 q dst routable.0 ready room fits add in
    let up = SourceUp-Kept q kept1 (SourceUp-Routable r.mem q input out h) in
    record {
      taken = m1;
      after = record (t.after) { mem = m3 };
      take = take;
      route =
          routed_block g now (record r { mem = m1 }) q t m3 routable up
            (ap (λ m. eth_add_packet_to_output_queue m q (destination m1 q)) t.mem
              ∙ ap (eth_add_packet_to_output_queue m2 q) (destination-Kept q kept1)
              ∙ add);
      rep = rep3;
      kept = Kept-trans kept1 (Kept-trans (bytes-Kept m1 t.bytes) kept3);
    }
