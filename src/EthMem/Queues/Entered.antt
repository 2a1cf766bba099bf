-- ===== src/EthMem/Queues/Entered.antt =====
-- app/src/main/cpp/eth_mem.c, `eth_add_packet_to_router_queue`: what a packet for the router leaves as
-- it was.
use mathlib.Core.Path.{subst}
use adapto_lite.Prelude.{
  ℕ, ◌≤◌, ◌<◌, ◌≡◌, ◌≢◌, refl, sym, ◌∙◌, some, List, arith, u8, Option-cases, inl, inr,
}
use adapto_lite.EthMem.State.{done, done-injective, EthMem, set_pbuf, eth_netifs}
use adapto_lite.EthMem.Pbufs.Rep.{Rep, Rep-same, next_of, ref_of}
use adapto_lite.EthMem.Queues.{
  eth_add_packet_to_router_queue, enqueue_input, link_input, take_entry,
}

-- The links and references of the buffers, the buffers that wait to be freed, and the interfaces'
-- states, callbacks and limits.
pub record Entered (m m' : EthMem) : Type 0 where
  pub next : (r : ℕ) → next_of m' r ≡ next_of m r
  pub ref : (r : ℕ) → ref_of m' r ≡ ref_of m r
  pub ctrl : m'.pbuf_ctrl ≡ m.pbuf_ctrl
  pub freed : m'.pool.free_pbuf_q_begin ≡ m.pool.free_pbuf_q_begin
  pub freed_end : m'.pool.free_pbuf_q_end ≡ m.pool.free_pbuf_q_end
  pub if_up : (i : ℕ) → (m'.netif i).if_up ≡ (m.netif i).if_up
  pub callback : (i : ℕ) → (m'.netif i).callback_fn ≡ (m.netif i).callback_fn
  pub update_cbk : (i : ℕ) → (m'.netif i).q_update_cbk ≡ (m.netif i).q_update_cbk
  pub pending : (i : ℕ) → (m'.netif i).callback_pending ≡ (m.netif i).callback_pending
  pub limit : (i : ℕ) → (m'.netif i).q_output_len_max ≡ (m.netif i).q_output_len_max

-- The state of the buffers before the entry is linked.
abbrev marked : EthMem → ℕ → ℕ → EthMem
marked m p q = take_entry (set_pbuf m p (record (m.pbuf p) { src_if = u8 (m.pbuf p).if_idx })) q

enqueued-Entered : (m : EthMem) (p q i : ℕ) → Entered m (enqueue_input (marked m p q) q p i)
unfolding enqueue_input link_input take_entry
enqueued-Entered m p q i = elim (Option-cases m.pool.q_input_end) [
  | inl e ↦ record {
    next = λ r. ground (arith, e);
    ref = λ r. ground (arith, e);
    ctrl = ground (arith, e);
    freed = ground (arith, e);
    freed_end = ground (arith, e);
    if_up = λ j. ground (arith, e);
    callback = λ j. ground (arith, e);
    update_cbk = λ j. ground (arith, e);
    pending = λ j. ground (arith, e);
    limit = λ j. ground (arith, e);
  }
  | inr (s, e) ↦ record {
    next = λ r. ground (arith, e);
    ref = λ r. ground (arith, e);
    ctrl = ground (arith, e);
    freed = ground (arith, e);
    freed_end = ground (arith, e);
    if_up = λ j. ground (arith, e);
    callback = λ j. ground (arith, e);
    update_cbk = λ j. ground (arith, e);
    pending = λ j. ground (arith, e);
    limit = λ j. ground (arith, e);
  }
]

pub eth_add_packet_to_router_queue-Entered :
    (m m' : EthMem) (p q : ℕ)
    → m.pool.q_begin ≡ some q
    → (m.pbuf p).ref ≢ 0
    → (m.pbuf p).if_idx < eth_netifs
    → 14 ≤ (m.pbuf p).len
    → eth_add_packet_to_router_queue m p ≡ done m'
    → Entered m m'
unfolding eth_add_packet_to_router_queue
eth_add_packet_to_router_queue-Entered m m' p q b alive known long e =
    let queued : eth_add_packet_to_router_queue m p
        ≡ done (enqueue_input (marked m p q) q p (m.pbuf p).if_idx) =
      ground (arith, b, alive, known, long) in
    subst (Entered m) (done-injective (sym queued ∙ e)) (enqueued-Entered m p q (m.pbuf p).if_idx)

-- What the buffers represent stays.
pub Rep-Entered :
    (m m' : EthMem) (free pending held : List ℕ)
    → Entered m m'
    → Rep m free pending held
    → Rep m' free pending held
Rep-Entered m m' free pending held h r =
    let k : EthMem = record m' { pool = m.pool } in
    let s = Rep-same m k free pending held h.next h.ref h.ctrl refl r in
    record {
      free_chain = s.free_chain;
      free_distinct = s.free_distinct;
      free_refs = s.free_refs;
      pending_chain = rw h.freed s.pending_chain;
      pending_end = h.freed_end ∙ s.pending_end;
      pending_distinct = s.pending_distinct;
      pending_refs = s.pending_refs;
      held_distinct = s.held_distinct;
      held_refs = s.held_refs;
      held_apart = s.held_apart;
      counted = s.counted;
      small = s.small;
    }
