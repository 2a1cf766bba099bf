-- ===== src/EthMem/Bridge.antt =====
-- app/src/main/cpp/eth_mem.c: `eth_router_add_bridge`, which links the buffers and the queue entries
-- into their free chains.
use adapto_lite.Prelude.{ℕ, suc, ◌+◌, ◌-◌, ◌*◌, ◌^◌, ◌≤◌, ◌<◌, ◌≡◌, refl, ap, none, some, [], arith}
use native.Mathlib.Decide.{dec_le}
use adapto_lite.Prelude.Bytes.{update}
use adapto_lite.Prelude.Loops.{
  for_each, for_each_inside, for_each_outside, count_up, length-count_up, All-count_up,
  Distinct-count_up, Chain-count_up,
}
use adapto_lite.EthMem.State.{EthMem, EthPbuf, EthQueue, EthNetif, st_free, eth_mem_buf_size}
use adapto_lite.EthMem.Pbufs.Rep.{Rep, next_of, ref_of}
use adapto_lite.EthMem.Queues.Rep.{QRep, OutputRep, Place, in_free, next_entry}

-- The fields of buffer `i` of the array.
reset_pbuf : ℕ → EthPbuf → EthPbuf
reset_pbuf i b = record b {
  default_payload = i * eth_mem_buf_size;
  type_internal = 0;
  flags = 2;
  ref = 0;
  if_idx = 0;
  src_if = 0;
}

link_pbuf : ℕ → EthPbuf → EthPbuf
link_pbuf i b = record b { next = some (i + 1) }

link_entry : ℕ → EthQueue → EthQueue
link_entry i q = record q { next = some (i + 1) }

reset_entry : ℕ → EthQueue → EthQueue
reset_entry i q = record q { state = st_free }

reset_netif : ℕ → EthNetif → EthNetif
reset_netif i n = record n {
  q_output_end = none;
  q_output_begin = none;
  q_output_len = 0;
  q_output_len_max = 0;
  q_output_size = 1;
  callback_fn = none;
  q_update_cbk = none;
  if_up = 0;
  callback_pending = 0;
}

init_pbufs : ℕ → (ℕ → EthPbuf) → ℕ → EthPbuf
unfolding reset_pbuf link_pbuf
init_pbufs cnt a =
    let b = for_each (cnt - 1) 0 link_pbuf (for_each cnt 0 reset_pbuf a) in
    update b (cnt - 1) (record (b (cnt - 1)) { next = none })

init_entries : ℕ → (ℕ → EthQueue) → ℕ → EthQueue
unfolding link_entry reset_entry
init_entries cnt a =
    let b = for_each (cnt - 1) 0 link_entry a in
    for_each cnt 0 reset_entry (update b (cnt - 1) (record (b (cnt - 1)) { next = none }))

-- The arguments are the sizes of the three arrays.
unfoldable pub eth_router_add_bridge : EthMem → ℕ → ℕ → ℕ → EthMem
unfolding init_pbufs init_entries reset_netif
eth_router_add_bridge m blocks pbufs netifs = record m {
  pbuf = init_pbufs pbufs m.pbuf;
  pbuf_ctrl = record (m.pbuf_ctrl) { free_chain = some 0 };
  queue = init_entries blocks m.queue;
  pool = record (m.pool) { used = 0; used_max = 0; q_begin = some 0 };
  netif = for_each netifs 0 reset_netif m.netif;
}

module _ (cnt : ℕ) (a : ℕ → EthPbuf) where
  init_pbufs_next : (j : ℕ) → 0 ≤ j → j < 0 + cnt → (init_pbufs (suc cnt) a j).next ≡ some (j + 1)
  unfolding init_pbufs
  init_pbufs_next j h k =
      let b = for_each (suc cnt) 0 reset_pbuf a in
      ground (arith, for_each_inside link_pbuf cnt 0 b j)

  init_pbufs_last : (init_pbufs (suc cnt) a (0 + cnt)).next ≡ none
  unfolding init_pbufs
  init_pbufs_last = ground arith

  init_pbufs_ref : (j : ℕ) → 0 ≤ j → j < 0 + suc cnt → (init_pbufs (suc cnt) a j).ref ≡ 0
  unfolding init_pbufs
  init_pbufs_ref j h k =
      let b = for_each (suc cnt) 0 reset_pbuf a in
      ground (
        arith,
        for_each_inside link_pbuf cnt 0 b j,
        for_each_outside link_pbuf cnt 0 b cnt (λ p q. omega arith),
        for_each_inside reset_pbuf (suc cnt) 0 a j,
        for_each_inside reset_pbuf (suc cnt) 0 a cnt,
      )

module _ (cnt : ℕ) (a : ℕ → EthQueue) where
  init_entries_next :
      (j : ℕ) → 0 ≤ j → j < 0 + cnt → (init_entries (suc cnt) a j).next ≡ some (j + 1)
  unfolding init_entries
  init_entries_next j h k =
      let b = for_each cnt 0 link_entry a in
      let c = update b cnt (record (b cnt) { next = none }) in
      ground
        (arith, for_each_inside link_entry cnt 0 a j, for_each_inside reset_entry (suc cnt) 0 c j)

  init_entries_last : (init_entries (suc cnt) a (0 + cnt)).next ≡ none
  unfolding init_entries
  init_entries_last =
      let b = for_each cnt 0 link_entry a in
      let c = update b cnt (record (b cnt) { next = none }) in
      ground (arith, for_each_inside reset_entry (suc cnt) 0 c cnt)

-- Every entry of a new bridge is free.
abbrev pub new_place : ℕ → Place
new_place q = in_free

-- After the first initialisation, of zeroed memory, every buffer is free, none pending or held.
pub eth_router_add_bridge-Rep :
    (m : EthMem) (blocks cnt netifs : ℕ)
    → m.pbuf_ctrl.used ≡ 0
    → m.pool.free_pbuf_q_begin ≡ none
    → m.pool.free_pbuf_q_end ≡ none
    → suc cnt < 2 ^ 32
    → Rep (eth_router_add_bridge m blocks (suc cnt) netifs) (count_up 0 (suc cnt)) [] []
unfolding eth_router_add_bridge
eth_router_add_bridge-Rep m blocks cnt netifs used begin end small = record {
  free_chain =
      Chain-count_up (next_of k) 0 cnt (init_pbufs_next cnt m.pbuf) (init_pbufs_last cnt m.pbuf);
  free_distinct = Distinct-count_up 0 (suc cnt);
  free_refs = All-count_up (λ j. ref_of k j ≡ 0) 0 (suc cnt) (init_pbufs_ref cnt m.pbuf);
  pending_chain = begin;
  pending_end = end;
  pending_distinct = tt;
  pending_refs = tt;
  held_distinct = tt;
  held_refs = tt;
  held_apart = tt;
  counted = used;
  small = omega (arith, used, length-count_up 0 (suc cnt), small);
}
  where
    k : EthMem
    k = eth_router_add_bridge m blocks (suc cnt) netifs

-- Every interface is down.
pub if_up-eth_router_add_bridge :
    (m : EthMem) (blocks pbufs netifs i : ℕ)
    → i < netifs
    → ((eth_router_add_bridge m blocks pbufs netifs).netif i).if_up ≡ 0
unfolding eth_router_add_bridge
if_up-eth_router_add_bridge m blocks pbufs netifs i h =
    ap (λ (n : EthNetif). n.if_up)
      (for_each_inside reset_netif netifs 0 m.netif i (omega arith) (omega (arith, h)))

-- Every queue entry is free, and every queue is empty.
pub eth_router_add_bridge-QRep :
    (m : EthMem) (blocks pbufs netifs : ℕ)
    → m.pool.q_input_begin ≡ none
    → m.pool.q_input_end ≡ none
    → ((i : ℕ) → netifs ≤ i → OutputRep (next_entry m) (m.netif i) new_place i [])
    → QRep
        (eth_router_add_bridge m (suc blocks) pbufs netifs)
        new_place
        (count_up 0 (suc blocks))
        []
        (λ i. [])
unfolding eth_router_add_bridge
eth_router_add_bridge-QRep m blocks pbufs netifs begin end idle = record {
  free_chain =
      Chain-count_up (next_entry k) 0 blocks (init_entries_next blocks m.queue)
        (init_entries_last blocks m.queue);
  free_distinct = Distinct-count_up 0 (suc blocks);
  free_places = All-count_up (λ j. new_place j ≡ in_free) 0 (suc blocks) (λ j p q. ground arith);
  input_chain = begin;
  input_end = end;
  input_distinct = tt;
  input_places = tt;
  outputs = outputs;
  states = λ q e. refl;
}
  where
    k : EthMem
    k = eth_router_add_bridge m (suc blocks) pbufs netifs

    outputs : (i : ℕ) → OutputRep (next_entry k) (k.netif i) new_place i []
    outputs i = elim (dec_le netifs i) [
      | yes h ↦ rw (for_each_outside reset_netif netifs 0 m.netif i (λ p q. omega (arith, h, q))) (
          let o = idle i h in
          record {
            chain = o.chain;
            end = o.end;
            distinct = tt;
            places = tt;
            len = o.len;
            bound = o.bound;
            waiting = o.waiting;
            registered = o.registered;
          })
      | no h ↦
          rw (for_each_inside reset_netif netifs 0 m.netif i (omega arith) (omega (arith, h)))
            (record {
              chain = refl;
              end = refl;
              distinct = tt;
              places = tt;
              len = refl;
              bound = omega arith;
              waiting = λ z. refl;
              registered = λ z. absurd (z refl);
            })
    ]
