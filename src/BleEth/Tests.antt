-- ===== src/BleEth/Tests.antt =====
-- The two ends of a link, and the theorems about ble_eth.c at them.
use adapto_lite.Prelude.{
  ℕ, ◌<◌, ◌+◌, ◌≤◌, ◌⊎◌, ◌≡◌, refl, inr, none, some, List, [], ◌∷◌, arith, true, map, length,
}
use adapto_lite.Prelude.Bytes.{read, Memory}
use adapto_lite.EthMem.State.{done, ◌>>=◌, EthMem, ble_netif_id}
use adapto_lite.EthMem.Pbufs.Rep.{Rep}
use adapto_lite.EthMem.Queues.{eth_add_packet_to_router_queue}
use adapto_lite.EthMem.Tests.{new_mem, new_mem-Rep, used_mem, used_mem-Rep}
use adapto_lite.BleEth.{BleEth, process_dgram_asm, ok}
use adapto_lite.BleEth.Fragments.{fragments, untagged, encode_all}
use adapto_lite.BleEth.Send.{Sending, send_chunks, unsent, get_next_chunk-fragments}
use adapto_lite.BleEth.Receive.{Receiving, receive_all}
use adapto_lite.BleEth.Reassembly.{outcome}
use adapto_lite.BleEth.Datagrams.{process_dgram_asm-fragments, no_buffer_left}
use adapto_lite.BleEth.Drop.{process_dgram_asm-drop}

-- Nothing in progress, three free buffers.
abbrev pub idle : BleEth
idle = record {
  mem = new_mem;
  stats = record {
    tx_chunks = 0;
    rx_chunks = 0;
    tx_dgrams = 0;
    rx_dgrams = 0;
    rx_too_short_chunk = 0;
    rx_too_short_dgram = 0;
    rx_oversize = 0;
    rx_pbuf_alloc_err = 0;
    rx_seqerr = 0;
  };
  current_tx_block = none;
  eth_rst_req_rx = 1;
  tx_rst = 0;
  rx_pbuf = none;
  rx_ptr = 0;
  rx_prev_seq = 0;
  rx_seq_err = 0;
  tx_ptr = 0;
  cbk_pending = 0;
}

-- Buffer 0, of 20 bytes, is to be sent.
abbrev pub sender : BleEth
sender = record idle { mem = used_mem; current_tx_block = some 0 }

-- Buffer 0 holds 1599 bytes of a datagram, and the chunk 6 is the next.
abbrev receiver : BleEth
receiver = record idle {
  mem = used_mem;
  rx_pbuf = some 0;
  rx_ptr = 1599;
  rx_prev_seq = 5;
  eth_rst_req_rx = 0;
}

abbrev zeros : Memory
zeros a = 0

abbrev packet : List ℕ
packet = 1 ∷ 2 ∷ 3 ∷ 4 ∷ 5 ∷ 6 ∷ 7 ∷ 8 ∷ 9 ∷ 10 ∷ 11 ∷ 12 ∷ 8 ∷ 0 ∷ 77 ∷ []

pub sender-Sending : Sending sender 0
sender-Sending = record {
  current = refl;
  no_reset = refl;
  not_pending = refl;
  within = omega arith;
}

receiver-Receiving : Receiving receiver 0 6
receiver-Receiving = record { buffer = refl; no_reset = refl; no_error = refl; next = refl }

get_next_chunk-fragments_example :
    (b' : BleEth) × (send_chunks (length (fragments 0 true (unsent sender 0))) sender zeros
      ≡ done (map untagged (fragments 0 true (unsent sender 0)), b'))
    × Rep b'.mem (2 ∷ []) (1 ∷ 0 ∷ []) []
    × (b'.current_tx_block ≡ none)
    × (b'.tx_ptr ≡ 0)
    × (b'.stats.tx_dgrams ≡ 1)
get_next_chunk-fragments_example =
    get_next_chunk-fragments 0 sender 0 zeros (2 ∷ []) (1 ∷ []) [] [] used_mem-Rep refl
      sender-Sending refl (omega arith)

process_dgram_asm-fragments_example :
    (m : EthMem) × Rep m (1 ∷ 2 ∷ []) [] (0 ∷ [])
    × ((m.pbuf 0).len ≡ 15)
    × ((m.pbuf 0).if_idx ≡ ble_netif_id)
    × ((m.pbuf 0).payload ≡ (new_mem.pbuf 0).default_payload)
    × (read m.bytes (m.pbuf 0).payload 15 ≡ packet)
    × ((a : ℕ)
        → (a < (m.pbuf 0).payload) ⊎ ((m.pbuf 0).payload + 15 ≤ a)
        → m.bytes a ≡ new_mem.bytes a)
    × ((receive_all idle (encode_all 63 (fragments 0 true packet)) >>= outcome)
        ≡ (eth_add_packet_to_router_queue m 0 >>= no_buffer_left))
process_dgram_asm-fragments_example =
    process_dgram_asm-fragments 0 idle 0 63 packet (1 ∷ 2 ∷ []) [] [] new_mem-Rep refl (omega arith)
      (omega arith)

process_dgram_asm-drop_example :
    (b' : BleEth) × (process_dgram_asm receiver (6 ∷ 1 ∷ 2 ∷ []) ≡ done (ok, b'))
    × Rep b'.mem (2 ∷ []) (1 ∷ 0 ∷ []) []
    × (b'.rx_pbuf ≡ none)
    × (b'.stats.rx_dgrams ≡ 0)
process_dgram_asm-drop_example =
    process_dgram_asm-drop receiver 0 6 6 1 (2 ∷ []) (2 ∷ []) (1 ∷ []) [] [] used_mem-Rep refl
      receiver-Receiving refl (inr (omega arith))
