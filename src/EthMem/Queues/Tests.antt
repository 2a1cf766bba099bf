-- ===== src/EthMem/Queues/Tests.antt =====
-- Queues of a small pool, and the theorems about the queues of eth_mem.c at them.
use adapto_lite.Prelude.{ℕ, ◌≡◌, refl, Option, none, some, List, [], ◌∷◌, arith}
use adapto_lite.Prelude.Bytes.{update}
use adapto_lite.EthMem.State.{
  done, EthMem, st_free, st_allocated, st_in_queue, Callback, callback_from_bridge, netif_callback,
}
use adapto_lite.EthMem.Queues.{
  eth_add_packet_to_router_queue, eth_get_packet, eth_add_packet_to_output_queue,
}
use adapto_lite.EthMem.Queues.Rep.{
  QRep, OutputRep, OutputRep_same, update_cases, next_entry, Place, in_free, in_input, in_output,
  busy,
}
use adapto_lite.EthMem.Queues.Input.{eth_add_packet_to_router_queue-QRep}
use adapto_lite.EthMem.Queues.Output.Get.{eth_get_packet-QRep}
use adapto_lite.EthMem.Queues.Output.Add.{eth_add_packet_to_output_queue-QRep}
use adapto_lite.EthMem.Queues.Output.Send.{eth_add_packet_to_output_queue-waiting}
use adapto_lite.EthMem.Tests.{zero_netif, used_mem}

-- Entry 0 is busy, 1 waits for the driver of interface 3, 2 for the router, 3 is free.
abbrev queued_mem : EthMem
queued_mem = record used_mem {
  queue =
      update
        (update
          (update (λ q. record { next = none; pbuf = 0; state = st_free }) 0
            (record { next = none; pbuf = 0; state = st_allocated }))
          1 (record { next = none; pbuf = 1; state = st_in_queue }))
        2 (record { next = none; pbuf = 1; state = st_in_queue });
  netif =
      update (λ i. zero_netif) 3
        (record zero_netif {
          q_output_begin = some 1;
          q_output_end = some 1;
          q_output_len = 1;
          q_output_len_max = 20;
          callback_fn = some callback_from_bridge;
        });
  pool = record (used_mem.pool) {
    q_begin = some 3;
    q_input_begin = some 2;
    q_input_end = some 2;
    used = 3;
  };
}

abbrev queued_place : ℕ → Place
queued_place = update (update (update (λ q. in_free) 0 busy) 1 (in_output 3)) 2 in_input

abbrev queued_out : ℕ → List ℕ
queued_out = update (λ i. []) 3 (1 ∷ [])

idle_output :
    (next : ℕ → Option ℕ) (place : ℕ → Place) (i : ℕ) → OutputRep next zero_netif place i []
idle_output next place i = record {
  chain = refl;
  end = refl;
  distinct = tt;
  places = tt;
  len = refl;
  bound = omega arith;
  waiting = λ z. refl;
  registered = λ z. absurd (z refl);
}

queued_mem-QRep : QRep queued_mem queued_place (3 ∷ []) (2 ∷ []) queued_out
queued_mem-QRep = record {
  free_chain = (refl, refl);
  free_distinct = (tt, tt);
  free_places = (refl, tt);
  input_chain = (refl, refl);
  input_end = refl;
  input_distinct = (tt, tt);
  input_places = (refl, tt);
  outputs =
      update_cases (λ j l. OutputRep (next_entry queued_mem) (queued_mem.netif j) queued_place j l)
        (λ i. []) 3 (1 ∷ [])
        (record {
          chain = (refl, refl);
          end = refl;
          distinct = (tt, tt);
          places = (refl, tt);
          len = refl;
          bound = omega arith;
          waiting = λ z. absurd (z refl);
          registered = λ z. absurd (z refl);
        })
        (λ j ne.
          OutputRep_same (next_entry queued_mem) zero_netif (queued_mem.netif j) queued_place j []
            (ground arith) (idle_output (next_entry queued_mem) queued_place j));
  states = λ q e. ground arith;
}

eth_add_packet_to_router_queue-QRep_example :
    (m' : EthMem) × (eth_add_packet_to_router_queue queued_mem 0 ≡ done m')
    × QRep m' (update (update queued_place 3 busy) 3 in_input) [] (2 ∷ 3 ∷ []) queued_out
    × ((m'.queue 3).pbuf ≡ 0)
    × ((m'.netif 3).input_queue_len ≡ 1)
    × ((m'.netif 3).dgrams_in ≡ 1)
eth_add_packet_to_router_queue-QRep_example =
    eth_add_packet_to_router_queue-QRep queued_mem queued_place 0 3 [] (2 ∷ []) queued_out
      queued_mem-QRep (omega arith) (omega arith) (omega arith)

eth_get_packet-QRep_example :
    (m' : EthMem) × (eth_get_packet queued_mem 3 ≡ done (some 1, m'))
    × QRep m'
        (update (update queued_place 1 busy) 1 in_free)
        (1 ∷ 3 ∷ [])
        (2 ∷ [])
        (update queued_out 3 [])
eth_get_packet-QRep_example =
    eth_get_packet-QRep queued_mem queued_place 3 1 [] (3 ∷ []) (2 ∷ []) queued_out queued_mem-QRep
      refl

eth_add_packet_to_output_queue-QRep_example :
    (m' : EthMem) × (eth_add_packet_to_output_queue queued_mem 0 3 ≡ done m')
    × QRep m'
        (update queued_place 0 (in_output 3))
        (3 ∷ [])
        (2 ∷ [])
        (update queued_out 3 (1 ∷ 0 ∷ []))
    × ((m'.netif 3).q_output_len_max ≡ 20)
eth_add_packet_to_output_queue-QRep_example =
    eth_add_packet_to_output_queue-QRep queued_mem queued_place 0 3 (3 ∷ []) (2 ∷ []) queued_out
      queued_mem-QRep refl (omega arith) refl (omega arith) (omega arith)

-- The driver of interface 3 has emptied its queue.
abbrev drained_mem : EthMem
drained_mem = record queued_mem {
  queue =
      update
        (update (λ q. record { next = none; pbuf = 0; state = st_free }) 0
          (record { next = none; pbuf = 0; state = st_allocated }))
        2 (record { next = none; pbuf = 1; state = st_in_queue });
  netif = λ i. record zero_netif {
    q_output_len_max = 20;
    callback_fn = some callback_from_bridge;
    callback_pending = 1;
  };
}

abbrev drained_place : ℕ → Place
drained_place = update (update (λ q. in_free) 0 busy) 2 in_input

drained_mem-QRep : QRep drained_mem drained_place (3 ∷ []) (2 ∷ []) (λ i. [])
drained_mem-QRep = record {
  free_chain = (refl, refl);
  free_distinct = (tt, tt);
  free_places = (refl, tt);
  input_chain = (refl, refl);
  input_end = refl;
  input_distinct = (tt, tt);
  input_places = (refl, tt);
  outputs = λ i. record {
    chain = refl;
    end = refl;
    distinct = tt;
    places = tt;
    len = refl;
    bound = omega arith;
    waiting = λ z. refl;
    registered = λ z e. cc;
  };
  states = λ q e. ground arith;
}

eth_add_packet_to_output_queue-waiting_example :
    (m' : EthMem) × (f : Callback) × (eth_add_packet_to_output_queue drained_mem 0 3 ≡ done m')
    × QRep m' (update drained_place 0 in_free) (0 ∷ 3 ∷ []) (2 ∷ []) (λ i. [])
    × ((m'.netif 3).callback_pending ≡ 0)
    × ((drained_mem.netif 3).callback_fn ≡ some f)
    × (m'.events ≡ netif_callback f 0 3 ∷ [])
eth_add_packet_to_output_queue-waiting_example =
    eth_add_packet_to_output_queue-waiting drained_mem drained_place 0 3 (3 ∷ []) (2 ∷ []) (λ i. [])
      drained_mem-QRep refl (omega arith) (omega arith)
