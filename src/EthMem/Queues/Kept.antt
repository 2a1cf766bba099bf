-- ===== src/EthMem/Queues/Kept.antt =====
-- app/src/main/cpp/eth_mem.c: what taking a packet for the router and queueing it leave as it was.
use mathlib.Core.Path.{subst}
use adapto_lite.Prelude.{
  ℕ, ◌^◌, ◌<◌, ◌≡◌, ◌≢◌, refl, sym, ◌∙◌, none, some, arith, Option-cases, inl, inr,
}
use adapto_lite.EthMem.State.{done, done-injective, EthMem, set_queue}
use adapto_lite.EthMem.Queues.{
  take_input, take_first, eth_add_packet_to_output_queue, enqueue_output, link_output,
}

-- The buffers, the entries' buffers, the interfaces' states and limits, and the first buffer that
-- waits to be freed.
pub record Kept (m m' : EthMem) : Type 0 where
  pub pbuf : m'.pbuf ≡ m.pbuf
  pub entry : (q : ℕ) → (m'.queue q).pbuf ≡ (m.queue q).pbuf
  pub if_up : (i : ℕ) → (m'.netif i).if_up ≡ (m.netif i).if_up
  pub pending : (i : ℕ) → (m'.netif i).callback_pending ≡ (m.netif i).callback_pending
  pub limit : (i : ℕ) → (m'.netif i).q_output_len_max ≡ (m.netif i).q_output_len_max
  pub freed : m'.pool.free_pbuf_q_begin ≡ m.pool.free_pbuf_q_begin

pub Kept-refl : (m : EthMem) → Kept m m
Kept-refl m = record {
  pbuf = refl;
  entry = λ q. refl;
  if_up = λ i. refl;
  pending = λ i. refl;
  limit = λ i. refl;
  freed = refl;
}

pub Kept-trans : {l m k : EthMem} → Kept l m → Kept m k → Kept l k
Kept-trans f g = record {
  pbuf = g.pbuf ∙ f.pbuf;
  entry = λ q. g.entry q ∙ f.entry q;
  if_up = λ i. g.if_up i ∙ f.if_up i;
  pending = λ i. g.pending i ∙ f.pending i;
  limit = λ i. g.limit i ∙ f.limit i;
  freed = g.freed ∙ f.freed;
}

take_first-Kept : (m : EthMem) (q : ℕ) → Kept m (take_first m q)
unfolding take_first
take_first-Kept m q = record {
  pbuf = refl;
  entry = λ p. ground arith;
  if_up = λ i. refl;
  pending = λ i. refl;
  limit = λ i. refl;
  freed = refl;
}

pub take_input-Kept :
    (m m1 : EthMem) (q : ℕ)
    → m.pool.q_input_begin ≡ some q
    → take_input m ≡ some (q, m1)
    → Kept m m1
unfolding take_input
take_input-Kept m m1 q b e =
    let same : take_first m q ≡ m1 = ground (arith, b, e) in
    subst (Kept m) same (take_first-Kept m q)

unlinked-Kept : (m : EthMem) (q : ℕ) → Kept m (set_queue m q (record (m.queue q) { next = none }))
unlinked-Kept m q = record {
  pbuf = refl;
  entry = λ p. ground arith;
  if_up = λ i. refl;
  pending = λ i. refl;
  limit = λ i. refl;
  freed = refl;
}

enqueue_output-Kept :
    (m : EthMem) (q i : ℕ)
    → (m.netif i).q_output_len < (m.netif i).q_output_len_max
    → (m.netif i).q_output_len_max < 2 ^ 32
    → Kept m (enqueue_output m q i)
unfolding enqueue_output link_output
enqueue_output-Kept m q i room fits = elim (Option-cases (m.netif i).q_output_end) [
  | inl e ↦ record {
    pbuf = ground (arith, e);
    entry = λ p. ground (arith, e);
    if_up = λ j. ground (arith, e);
    pending = λ j. ground (arith, e);
    limit = λ j. ground (arith, e, room, fits);
    freed = ground (arith, e);
  }
  | inr (p, e) ↦ record {
    pbuf = ground (arith, e);
    entry = λ r. ground (arith, e);
    if_up = λ j. ground (arith, e);
    pending = λ j. ground (arith, e);
    limit = λ j. ground (arith, e, room, fits);
    freed = ground (arith, e);
  }
]

pub eth_add_packet_to_output_queue-Kept :
    (m m' : EthMem) (q i : ℕ)
    → (m.pbuf (m.queue q).pbuf).ref ≢ 0
    → (m.netif i).callback_pending ≡ 0
    → (m.netif i).q_output_len < (m.netif i).q_output_len_max
    → (m.netif i).q_output_len_max < 2 ^ 32
    → eth_add_packet_to_output_queue m q i ≡ done m'
    → Kept m m'
unfolding eth_add_packet_to_output_queue
eth_add_packet_to_output_queue-Kept m m' q i alive ready room fits e =
    let m1 = set_queue m q (record (m.queue q) { next = none }) in
    let queued : eth_add_packet_to_output_queue m q i ≡ done (enqueue_output m1 q i) =
      ground (arith, alive, ready, room) in
    let same : enqueue_output m1 q i ≡ m' = done-injective (sym queued ∙ e) in
    subst (Kept m) same (Kept-trans (unlinked-Kept m q) (enqueue_output-Kept m1 q i room fits))
