-- ===== src/EthRouter/Drain.antt =====
-- app/src/main/cpp/eth_mem.c, the inner loop of EthQueueTask: the router's queue is emptied in order.
use mathlib.Core.Path.{subst}
use adapto_lite.Prelude.{
  ℕ, zero, suc, ◌+◌, ◌<◌, ◌≤◌, ◌≡◌, refl, sym, ◌∙◌, none, List, [], ◌∷◌, ◌++◌, arith, length,
  length-append, All-map,
}
use adapto_lite.Prelude.Bytes.{update}
use adapto_lite.EthMem.State.{done, EthMem, ble_netif_id, lwip_netif_id}
use adapto_lite.EthMem.Queues.{take_input}
use adapto_lite.EthMem.Queues.Rep.{Place, QRep}
use adapto_lite.EthMem.Queues.Kept.{Kept, Kept-refl, Kept-trans}
use adapto_lite.EthNat.{Gnetif}
use adapto_lite.EthRouter.{Router, route_all, free_pending}
use adapto_lite.EthRouter.Rounds.{
  destination, destination-Kept, IsRoutable-Kept, IsOpen, Routable, Round, next-Round,
}

-- Each entry in order goes to the end of its destination's queue.
unfoldable pub routed : (ℕ → ℕ) → List ℕ → (ℕ → List ℕ) → ℕ → List ℕ
routed dst [] out = out
routed dst (q ∷ l) out = routed dst l (update out (dst q) (out (dst q) ++ q ∷ []))

length-routed :
    (out : ℕ → List ℕ) (d q i : ℕ)
    → length (update out d (out d ++ q ∷ []) i) ≤ suc (length (out i))
length-routed out d q i = ground (arith, length-append (out d) (q ∷ []))

-- One packet less waits for the router, and at most one more for an interface.
IsOpen-later :
    (m m' : EthMem) (i d q : ℕ) (input : List ℕ) (out : ℕ → List ℕ)
    → Kept m m'
    → IsOpen (m.netif i) (length (out i) + length (q ∷ input))
    → IsOpen (m'.netif i) (length (update out d (out d ++ q ∷ []) i) + length input)
IsOpen-later m m' i d q input out k h = record {
  up = λ e. h.up (sym (k.if_up i) ∙ e);
  ready = k.pending i ∙ h.ready;
  room = omega (arith, length-routed out d q i, k.limit i, h.room);
  limit = omega (arith, k.limit i, h.limit);
}

Routable-later :
    (m m' : EthMem) (d q : ℕ) (input : List ℕ) (out : ℕ → List ℕ)
    → Kept m m'
    → Routable m (q ∷ input) out
    → Routable m' input (update out d (out d ++ q ∷ []))
Routable-later m m' d q input out k h = record {
  packets = All-map (λ p x. IsRoutable-Kept p k x) input h.packets.1;
  link = IsOpen-later m m' ble_netif_id d q input out k h.link;
  lwip = IsOpen-later m m' lwip_netif_id d q input out k h.lwip;
  freed = k.freed ∙ h.freed;
}

route_all-none :
    (g : Gnetif) (clock : ℕ → ℕ) (fuel : ℕ) (r : Router)
    → r.mem.pool.q_input_begin ≡ none
    → route_all g clock (suc fuel) r ≡ done r
unfolding route_all take_input
route_all-none g clock fuel r e = rw e refl

route_all-Round :
    (g : Gnetif) (clock : ℕ → ℕ) (fuel : ℕ) (r : Router) (q : ℕ) (place : ℕ → Place)
    (free input : List ℕ) (out : ℕ → List ℕ)
    → (h : Round g (clock fuel) r q place free input out) → r.mem.pool.free_pbuf_q_begin ≡ none
    → route_all g clock (suc fuel) r ≡ route_all g clock fuel h.after
unfolding route_all free_pending
route_all-Round g clock fuel r q place free input out h e =
    let freed : h.after.mem.pool.free_pbuf_q_begin ≡ none = h.kept.freed ∙ e in
    rw (h.take, h.route, freed, route_all) refl

-- The router's queue holds the entries `input`, of packets in use from the link and from lwIP, both
-- interfaces are up with room for all of them, neither driver waits, and no buffer waits to be freed.
-- Then more rounds than there are packets empty the queue, without an assertion: in the order in
-- which they came, those from the link stand behind the packets that waited for lwIP, the others
-- behind those that waited for the link. The entries keep their buffers, the buffers their contents
-- of `struct ETH_PBUF`, and the interfaces their limits.
pub route_all-routed :
    (g : Gnetif) (clock : ℕ → ℕ) (fuel : ℕ) (r : Router) (place : ℕ → Place) (free input : List ℕ)
    (out : ℕ → List ℕ)
    → QRep r.mem place free input out
    → Routable r.mem input out
    → length input < fuel
    → (r' : Router) × (place' : ℕ → Place) × (route_all g clock fuel r ≡ done r')
      × QRep r'.mem place' free [] (routed (destination r.mem) input out)
      × Kept r.mem r'.mem
unfolding routed
route_all-routed g clock zero r place free input out rep h f = absurd (omega (arith, f))
route_all-routed g clock (suc fuel) r place free [] out rep h f =
    (r, place, route_all-none g clock fuel r rep.input_chain, rep, Kept-refl r.mem)
route_all-routed g clock (suc fuel) r place free (q ∷ input) out rep h f =
    let x = next-Round g (clock fuel) r q place free input out rep h in
    let d = destination r.mem q in
    let out1 = update out d (out d ++ q ∷ []) in
    let (r', place', e, rep', kept) =
      route_all-routed g clock fuel x.after _ free input _ x.rep
        (Routable-later r.mem x.after.mem d q input out x.kept h) (omega (arith, f)) in
    let same : destination x.after.mem ≡ destination r.mem = λ i p. destination-Kept p x.kept i in
    (
      r',
      place',
      route_all-Round g clock fuel r q place free input out x h.freed ∙ e,
      subst (λ x. QRep r'.mem place' free [] (routed x input out1)) same rep',
      Kept-trans x.kept kept,
    )
