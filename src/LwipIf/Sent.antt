-- ===== src/LwipIf/Sent.antt =====
-- app/src/main/cpp/lwip/eth_router_if_lwip.c, `lwip_output_to_bridge`, with the router's queue: where
-- lwIP's packet stands afterwards.
use adapto_lite.Prelude.{ℕ, ◌≤◌, ◌<◌, ◌≡◌, ◌≢◌, refl, ap, ◌∙◌, List, [], ◌∷◌, ◌++◌, arith, length}
use adapto_lite.Prelude.Bytes.{update}
use adapto_lite.EthMem.State.{done, EthMem, eth_mem_buf_size, eth_netifs}
use adapto_lite.EthMem.Pbufs.Rep.{Rep}
use adapto_lite.EthMem.Queues.Rep.{QRep, QRep-same, Place, busy, in_input}
use adapto_lite.EthMem.Queues.Input.{eth_add_packet_to_router_queue-QRep}
use adapto_lite.EthMem.Queues.Entered.{eth_add_packet_to_router_queue-Entered, Rep-Entered}
use adapto_lite.LwipIf.{LwipIf, lwip_output_to_bridge}
use adapto_lite.LwipIf.Output.{joined, lwip_output_to_bridge-Framed}

-- The state of the interfaces that a packet on its way to the router leaves.
pub record SameNetifs (m m' : EthMem) : Type 0 where
  pub if_up : (i : ℕ) → (m'.netif i).if_up ≡ (m.netif i).if_up
  pub callback : (i : ℕ) → (m'.netif i).callback_fn ≡ (m.netif i).callback_fn
  pub update_cbk : (i : ℕ) → (m'.netif i).q_update_cbk ≡ (m.netif i).q_update_cbk
  pub pending : (i : ℕ) → (m'.netif i).callback_pending ≡ (m.netif i).callback_pending
  pub limit : (i : ℕ) → (m'.netif i).q_output_len_max ≡ (m.netif i).q_output_len_max

-- With a free buffer `p` and a free entry `q`, the packet waits in them at the end of the router's
-- queue.
pub lwip_output_to_bridge-QRep :
    (s : LwipIf) (p q : ℕ) (fs : List (List ℕ)) (free pending held : List ℕ) (place : ℕ → Place)
    (entries input : List ℕ) (out : ℕ → List ℕ)
    → Rep s.mem (p ∷ free) pending held
    → QRep s.mem place (q ∷ entries) input out
    → length s.hwaddr ≡ 6
    → 14 ≤ length (joined fs)
    → length (joined fs) ≤ eth_mem_buf_size
    → (m : EthMem) × (lwip_output_to_bridge s (length (joined fs)) fs ≡ done (record s { mem = m }))
      × Rep m free pending (p ∷ held)
      × QRep m (update (update place q busy) q in_input) entries (input ++ q ∷ []) out
      × ((m.queue q).pbuf ≡ p)
      × SameNetifs s.mem m
lwip_output_to_bridge-QRep s p q fs free pending held place entries input out rep qrep six long
      fits =
    let (k, r, len, if_idx, bytes, run, (queue, netif, pool), one) =
      lwip_output_to_bridge-Framed s p fs free pending held rep six long fits in
    let at_k =
      QRep-same s.mem k place (q ∷ entries) input out (λ j. ap (λ f. f j) queue)
        (λ j. rw netif (refl, refl, refl, refl, refl, refl)) (ap (λ x. x.q_begin) pool)
        (ap (λ x. x.q_input_begin) pool) (ap (λ x. x.q_input_end) pool) qrep in
    let alive : (k.pbuf p).ref ≢ 0 = λ z. omega (arith, one, z) in
    let known : (k.pbuf p).if_idx < eth_netifs = omega (arith, if_idx) in
    let size : 14 ≤ (k.pbuf p).len = omega (arith, len, long) in
    let (m, add, q1, at_q, len_in, dgrams) =
      eth_add_packet_to_router_queue-QRep k place p q entries input out at_k alive known size in
    let h =
      eth_add_packet_to_router_queue-Entered k m p q (at_k.free_chain.0) alive known size add in
    (
      m,
      run ∙ rw add refl,
      Rep-Entered k m free pending (p ∷ held) h r,
      q1,
      at_q,
      record {
        if_up = λ i. h.if_up i ∙ ap (λ f. (f i).if_up) netif;
        callback = λ i. h.callback i ∙ ap (λ f. (f i).callback_fn) netif;
        update_cbk = λ i. h.update_cbk i ∙ ap (λ f. (f i).q_update_cbk) netif;
        pending = λ i. h.pending i ∙ ap (λ f. (f i).callback_pending) netif;
        limit = λ i. h.limit i ∙ ap (λ f. (f i).q_output_len_max) netif;
      },
    )
