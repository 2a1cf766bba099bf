-- ===== src/EthMem/Queues/Output/Bytes.antt =====
-- app/src/main/cpp/eth_mem.c, `eth_add_packet_to_output_queue`: queueing leaves the packets' bytes.
use adapto_lite.Prelude.{ℕ, ◌<◌, ◌≡◌, ◌≢◌, refl, sym, ap, ◌∙◌, none, arith, Option-cases, inl, inr}
use adapto_lite.EthMem.State.{Run, done, em_assert, bad_access, out_of_fuel, EthMem, set_queue}
use adapto_lite.EthMem.Queues.{eth_add_packet_to_output_queue, enqueue_output, link_output}

enqueue_output-bytes : (m : EthMem) (q i : ℕ) → (enqueue_output m q i).bytes ≡ m.bytes
unfolding enqueue_output link_output
enqueue_output-bytes m q i = elim (Option-cases (m.netif i).q_output_end) [
  | inl e ↦ rw e refl
  | inr (p, e) ↦ rw e refl
]

result : EthMem → Run EthMem → EthMem
result d (done m) = m
result d (em_assert n) = d
result d bad_access = d
result d out_of_fuel = d

pub eth_add_packet_to_output_queue-bytes :
    (m m' : EthMem) (q i : ℕ)
    → (m.pbuf (m.queue q).pbuf).ref ≢ 0
    → (m.netif i).callback_pending ≡ 0
    → (m.netif i).q_output_len < (m.netif i).q_output_len_max
    → eth_add_packet_to_output_queue m q i ≡ done m'
    → m'.bytes ≡ m.bytes
unfolding eth_add_packet_to_output_queue result
eth_add_packet_to_output_queue-bytes m m' q i alive ready room e =
    let m1 = set_queue m q (record (m.queue q) { next = none }) in
    let queued : eth_add_packet_to_output_queue m q i ≡ done (enqueue_output m1 q i) =
      ground (arith, alive, ready, room) in
    ap (λ (r : Run EthMem). (result m r).bytes) (sym e ∙ queued) ∙ enqueue_output-bytes m1 q i
