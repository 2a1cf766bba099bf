-- ===== src/EthMem/Tests.antt =====
-- Small pools, and the theorems about the packet buffers of eth_mem.c at them.
use adapto_lite.Prelude.{ℕ, ◌≤◌, ◌≡◌, refl, none, some, [], ◌∷◌, arith}
use adapto_lite.Prelude.Bytes.{update}
use adapto_lite.EthMem.State.{done, EthPbuf, EthNetif, EthMem, st_free}
use adapto_lite.EthMem.Pbufs.{eth_pbuf_alloc, eth_pbuf_free_request, free_blk}
use adapto_lite.EthMem.Pbufs.Rep.{Rep, next_of, ref_of}
use adapto_lite.EthMem.Pbufs.Alloc.{eth_pbuf_alloc-Rep}
use adapto_lite.EthMem.Pbufs.Free.{eth_pbuf_free_request-Rep}
use adapto_lite.EthMem.Pbufs.FreeBlk.{free_blk-Rep}
use adapto_lite.EthMem.Queues.Rep.{OutputRep, next_entry}
use adapto_lite.EthMem.Bridge.{eth_router_add_bridge, new_place, eth_router_add_bridge-Rep}

abbrev zero_pbuf : EthPbuf
zero_pbuf = record {
  next = none;
  payload = 0;
  tot_len = 0;
  len = 0;
  type_internal = 0;
  flags = 0;
  ref = 0;
  if_idx = 0;
  default_payload = 0;
  src_if = 0;
}

abbrev pub zero_netif : EthNetif
zero_netif = record {
  q_output_end = none;
  q_output_begin = none;
  q_output_len = 0;
  q_output_len_max = 0;
  q_output_size = 0;
  callback_fn = none;
  q_update_cbk = none;
  if_up = 0;
  callback_pending = 0;
  dgrams_in = 0;
  dgrams_out = 0;
  dgrams_lost = 0;
  input_queue_len = 0;
}

-- Static storage before any initialisation.
abbrev pub zero_mem : EthMem
zero_mem = record {
  pbuf = λ p. zero_pbuf;
  bytes = λ a. 0;
  queue = λ q. record { next = none; pbuf = 0; state = st_free };
  netif = λ i. zero_netif;
  callback = λ c. record { next_p = none; src_interface_id = 3; wait_active = 0 };
  pbuf_ctrl = record { free_chain = none; used = 0; used_max = 0 };
  pool = record {
    q_begin = none;
    nopbuf_q_end = none;
    nopbuf_q_begin = none;
    free_pbuf_q_end = none;
    free_pbuf_q_begin = none;
    q_input_end = none;
    q_input_begin = none;
    q_input_used = 0;
    q_input_used_max = 0;
    used = 0;
    used_max = 0;
    alloc_fails = 0;
    notify = record { val = 0; sem = 0 };
  };
  stats = record {
    qpool_alloc_fails = 0;
    eth_pbuf_alloc_fails = 0;
    eth_pbuf_alloc_delayed = 0;
    eth_pbuf_alloc_delay_cbks = 0;
  };
  events = [];
}

-- Three buffers, four entries, four interfaces.
abbrev pub new_mem : EthMem
new_mem = eth_router_add_bridge zero_mem 4 3 4

pub new_mem-Rep : Rep new_mem (0 ∷ 1 ∷ 2 ∷ []) [] []
new_mem-Rep = eth_router_add_bridge-Rep zero_mem 4 2 4 refl refl refl (omega arith)

pub zero_outputs : (i : ℕ) → 4 ≤ i → OutputRep (next_entry zero_mem) zero_netif new_place i []
zero_outputs i h = record {
  chain = refl;
  end = refl;
  distinct = tt;
  places = tt;
  len = refl;
  bound = omega arith;
  waiting = λ z. refl;
  registered = λ z. absurd (z refl);
}

-- Buffer 0 is held, 1 is pending, 2 is free; the packet in 0 has 20 bytes from interface 3.
abbrev pub used_mem : EthMem
used_mem = record zero_mem {
  pbuf =
      update (update (λ p. zero_pbuf) 0 (record zero_pbuf { ref = 1; len = 20; if_idx = 3 })) 1
        (record zero_pbuf { ref = 1 });
  pbuf_ctrl = record { free_chain = some 2; used = 2; used_max = 2 };
  pool = record (zero_mem.pool) { free_pbuf_q_begin = some 1; free_pbuf_q_end = some 1 };
}

pub used_mem-Rep : Rep used_mem (2 ∷ []) (1 ∷ []) (0 ∷ [])
used_mem-Rep = record {
  free_chain = (refl, refl);
  free_distinct = (tt, tt);
  free_refs = (refl, tt);
  pending_chain = (refl, refl);
  pending_end = refl;
  pending_distinct = (tt, tt);
  pending_refs = (refl, tt);
  held_distinct = (tt, tt);
  held_refs = (omega arith, tt);
  held_apart = ((omega arith, tt), tt);
  counted = refl;
  small = omega arith;
}

eth_pbuf_alloc-Rep_example :
    (m' : EthMem) × (eth_pbuf_alloc new_mem none ≡ done (some 0, m'))
    × Rep m' (1 ∷ 2 ∷ []) [] (0 ∷ [])
    × (ref_of m' 0 ≡ 1)
    × ((m'.pbuf 0).payload ≡ (new_mem.pbuf 0).default_payload)
    × (next_of m' 0 ≡ none)
    × (m'.bytes ≡ new_mem.bytes)
eth_pbuf_alloc-Rep_example = eth_pbuf_alloc-Rep new_mem none 0 (1 ∷ 2 ∷ []) [] [] new_mem-Rep

eth_pbuf_free_request-Rep_example :
    (m' : EthMem) × (eth_pbuf_free_request used_mem 0 ≡ done m') × Rep m' (2 ∷ []) (1 ∷ 0 ∷ []) []
eth_pbuf_free_request-Rep_example =
    eth_pbuf_free_request-Rep used_mem 0 (2 ∷ []) (1 ∷ []) [] [] used_mem-Rep refl

free_blk-Rep_example :
    (m' : EthMem) × (free_blk 2 used_mem ≡ done m') × Rep m' (1 ∷ 2 ∷ []) [] (0 ∷ [])
free_blk-Rep_example =
    free_blk-Rep 2 used_mem (2 ∷ []) (1 ∷ []) (0 ∷ []) used_mem-Rep refl (omega arith)
