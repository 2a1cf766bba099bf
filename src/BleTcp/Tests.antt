-- ===== src/BleTcp/Tests.antt =====
-- A block in the buffer of the sending task, and the theorem about ble_tcp.c at it.
use adapto_lite.Prelude.{ℕ, List, none, ◌+◌, ◌≡◌, refl, [], ◌∷◌, arith}
use adapto_lite.Prelude.Bytes.{read}
use adapto_lite.BleEth.Tests.{idle, sender, sender-Sending}
use adapto_lite.BleEth.Send.{unsent}
use adapto_lite.BleEth.Datagrams.{no_buffer_left}
use adapto_lite.EthMem.State.{EthMem, Run, done, ◌>>=◌}
use adapto_lite.EthMem.Pbufs.Rep.{Rep}
use adapto_lite.EthMem.Queues.{eth_add_packet_to_router_queue}
use adapto_lite.EthMem.Tests.{used_mem-Rep, new_mem-Rep}
use adapto_lite.Xlib.{t_notify_wait, t_notify_add}
use adapto_lite.BleTcp.Rounds.{send_rounds, Ready}
use adapto_lite.BleTcp.Link.{receive_blocks, delivered, task_step-process_gatt_data}
use adapto_lite.BleTcp.Acks.{timer, task}
use adapto_lite.BleTcp.Ends.{
  Ends, AcksOne, Reach, here, next, acts, arrives, turn, swap, Reach-AcksOne,
}
use adapto_lite.BleTcp.{
  BleTcp, send_block, gatt_conn_reset, tcp_tmr, task_step, ble_gatt_trysend, process_gatt_data,
}
use adapto_lite.BleTcp.Round.{send_block-retry}

-- The first chunk of a datagram, of two bytes, with the number 9.
abbrev pub loaded : BleTcp
loaded = record {
  eth = idle;
  stats = record {
    tx_raw = 0;
    rx_raw = 0;
    tx_blocks = 0;
    rx_empty_dg = 0;
    rst_cnt = 0;
    tx_bytes = 0;
    rx_bytes = 0;
  };
  notify = record { val = 0; sem = 0 };
  ble_tx_busy = 0;
  ack_sent_value = 0;
  snd_blk_len = 4;
  snd_blk = λ a. a + 0x3f;
  ack_notify_request = 0;
  tx_index_blk = 9;
  tx_push_ptr_blk = 0;
  rx_nack_blk = 5;
  sent = [];
}

send_block-retry_example :
    ((send_block (λ x. 0) 2 loaded).sent ≡ [])
    × ((send_block (λ x. 0) 2 loaded).snd_blk_len ≡ 4)
    × ((send_block (λ x. 1) 2 (send_block (λ x. 0) 2 loaded)).sent
        ≡ (5 ∷ 0x49 ∷ 0x41 ∷ 0x42 ∷ []) ∷ [])
    × ((send_block (λ x. 1) 2 (send_block (λ x. 0) 2 loaded)).snd_blk_len ≡ 0)
    × ((send_block (λ x. 1) 2 (send_block (λ x. 0) 2 loaded)).tx_index_blk ≡ 10)
unfolding read
send_block-retry_example =
    send_block-retry (λ x. 0) (λ x. 1) loaded 2 refl refl (λ x e. omega (arith, e)) (λ x. refl)

-- A datagram of 20 bytes in progress, and the driver just finished a block.
abbrev ready : BleTcp
ready = record loaded { eth = sender; snd_blk_len = 0; notify = record { val = 8; sem = 1 } }

ready-Ready : Ready ready
ready-Ready = record { count = 0; posted = refl; woken = refl; idle = refl; empty = refl }

task_step-process_gatt_data_example :
    (k : ℕ) × (bs : List (List ℕ)) × (b' : BleTcp) × (m : EthMem) × (send_rounds k (λ x. 1) ready
      ≡ done b')
    × (b'.sent ≡ bs)
    × Ready b'
    × (b'.eth.current_tx_block ≡ none)
    × Rep b'.eth.mem (2 ∷ []) (1 ∷ 0 ∷ []) []
    × ((m.pbuf 0).len ≡ 20)
    × (read m.bytes (m.pbuf 0).payload (m.pbuf 0).len ≡ unsent sender 0)
    × ((receive_blocks (record loaded { eth = idle }) bs >>= delivered)
        ≡ (eth_add_packet_to_router_queue m 0 >>= no_buffer_left))
task_step-process_gatt_data_example =
    task_step-process_gatt_data (λ x. 1) ready (record loaded { eth = idle }) 0 0 (2 ∷ []) (1 ∷ [])
      [] [] (1 ∷ 2 ∷ []) [] [] (λ x. refl) ready-Ready used_mem-Rep refl sender-Sending refl
      (omega arith) (omega arith) new_mem-Rep refl

abbrev end_of : Run BleTcp → BleTcp
end_of (done b) = b
end_of _ = loaded

-- Both ends after the reset; the timer of the one runs out, and its task sends an acknowledgement,
-- which arrives at the other.
abbrev start : Ends
start = record {
  here = gatt_conn_reset loaded;
  there = gatt_conn_reset ready;
  to_there = [];
  to_here = [];
}

abbrev after_timer : Ends
after_timer = record start { here = tcp_tmr (gatt_conn_reset loaded) }

abbrev after_task : Ends
after_task = record start {
  here = end_of (task_step (λ x. 1) 2 (tcp_tmr (gatt_conn_reset loaded)));
  to_there = (1 ∷ []) ∷ [];
}

abbrev after_arrival : Ends
after_arrival = record (swap after_task) {
  here = end_of (process_gatt_data (gatt_conn_reset ready) (1 ∷ []));
  to_here = [];
}

task_done : task_step (λ x. 1) 2 (tcp_tmr (gatt_conn_reset loaded)) ≡ done after_task.here
unfolding task_step t_notify_wait t_notify_add tcp_tmr gatt_conn_reset
    adapto_lite.BleEth.get_next_chunk adapto_lite.BleEth.gatt_eth_reset
    adapto_lite.EthMem.Queues.eth_get_packet adapto_lite.EthMem.Bridge.eth_router_add_bridge
    adapto_lite.Prelude.Loops.for_each
task_done = refl

task_sent : after_task.here.sent ≡ (1 ∷ []) ∷ []
unfolding task_step t_notify_wait t_notify_add tcp_tmr gatt_conn_reset send_block ble_gatt_trysend
    read adapto_lite.BleEth.get_next_chunk adapto_lite.BleEth.gatt_eth_reset
    adapto_lite.EthMem.Queues.eth_get_packet adapto_lite.EthMem.Bridge.eth_router_add_bridge
    adapto_lite.Prelude.Loops.for_each
task_sent = refl

ack_arrived : process_gatt_data (gatt_conn_reset ready) (1 ∷ []) ≡ done after_arrival.here
unfolding process_gatt_data
ack_arrived = refl

exchange : Reach start after_arrival
unfolding tcp_tmr gatt_conn_reset
exchange =
    next
      (next
        (next (next here (acts start (λ x. 1) 2 [] (timer start.here) refl))
          (acts after_timer (λ x. 1) 2 ((1 ∷ []) ∷ []) (task after_timer.here task_done) task_sent))
        (turn after_task))
      (arrives (swap after_task) (1 ∷ []) [] refl ack_arrived)

Reach-AcksOne_example : AcksOne after_arrival
Reach-AcksOne_example = Reach-AcksOne loaded ready refl refl exchange
