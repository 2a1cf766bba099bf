-- ===== src/BtDrv/Tests.antt =====
-- app/src/main/cpp/bt_drv.c: the start on zeroed memory, events without a connection, and ten samples.
use adapto_lite.Prelude.{
  ℕ, zero, suc, ◌*◌, ◌≡◌, ◌≢◌, refl, none, some, List, [], ◌∷◌, true, false, arith,
}
use adapto_lite.EthMem.State.{Run, done}
use adapto_lite.EthMem.Pbufs.Rep.{Rep}
use adapto_lite.EthMem.Tests.{zero_mem}
use adapto_lite.Xlib.{t_notify_wait, t_notify_add}
use adapto_lite.BleTcp.{task_step, next_chunk_avail, ble_tx_complete}
use adapto_lite.BleTcp.Tests.{loaded}
use adapto_lite.LwipIf.{LwipIf}
use adapto_lite.LwipIf.Init.{LwNetif}
use adapto_lite.BtDrv.{BtDrv, tcp_task, char_wr_cbk, eth_ble_stack_control}
use adapto_lite.BtDrv.Load.{Program, Calls}
use adapto_lite.BtDrv.Quiet.{
  Reach, here, next, task, hands, written, control, packet_handed, Reach-silent,
}
use adapto_lite.BtDrv.Status.{
  History, Sample, Recorded, status_round, status_round-Recorded, status_round-speeds,
}

abbrev lwip_if : LwipIf
lwip_if = record {
  mem = zero_mem;
  in_too_big = 0;
  in_alloc_errs = 0;
  block_to_send = none;
  task = record { val = 0; sem = 0 };
  hwaddr = [];
}

abbrev netif : LwNetif
netif = record { name = []; hwaddr_len = 0; mtu = 0; flags = 0 }

-- lwIP's frame for all, of 42 bytes, in one part.
abbrev announcement : List (List ℕ)
announcement =
    (255 ∷ 255 ∷ 255 ∷ 255 ∷ 255 ∷ 255 ∷ 0 ∷ 128 ∷ 7 ∷ 7 ∷ 7 ∷ 7 ∷ 8 ∷ 6 ∷ 0 ∷ 1 ∷ 8 ∷ 0 ∷ 6 ∷ 4 ∷ 0
      ∷ 1 ∷ 0 ∷ 128 ∷ 7 ∷ 7 ∷ 7 ∷ 7 ∷ 192 ∷ 168 ∷ 245 ∷ 1 ∷ 0 ∷ 0 ∷ 0 ∷ 0 ∷ 0 ∷ 0 ∷ 192 ∷ 168 ∷ 245
      ∷ 1 ∷ [])
    ∷ []

abbrev calls : Calls
calls = record {
  java = true ∷ true ∷ true ∷ true ∷ true ∷ true ∷ [];
  rand = λ i. 7;
  announced = (42, announcement) ∷ [];
  udp_new = true;
  udp_bind = 0;
  pipe2 = 0;
  new_pcb = some 1;
  listen = λ pcb. some pcb;
}

abbrev program : Program
program = record {
  lwip = lwip_if;
  netif = netif;
  ble = loaded;
  dns = record {
    dns_q = record { q_begin = none; q_end = none; q_len = 0; q_len_max = 0; lost = 0 };
    receiving = false;
    running = false;
  };
  nat = record { running = false; accepting = none };
}

-- The connection went down with a chunk in the buffer of the sending task.
abbrev disconnected : BtDrv
disconnected = record {
  tcp = loaded;
  ble_connection_status = 3;
  taps = 0;
  recvs = 0;
  dbg_scr_num = 0;
}

abbrev after : Run BtDrv → BtDrv
after (done s) = s
after _ = disconnected

-- The bridge hands over a packet, Java's report of a write wakes the task, which tries to send the
-- chunk; then the status changes.
abbrev handed : BtDrv
handed = packet_handed disconnected 0

abbrev tried : BtDrv
tried = after (tcp_task (λ x. 1) (char_wr_cbk handed))

abbrev shut : BtDrv
shut = eth_ble_stack_control tried 1

task_done : tcp_task (λ x. 1) (char_wr_cbk handed) ≡ done tried
unfolding tcp_task char_wr_cbk task_step next_chunk_avail ble_tx_complete t_notify_wait t_notify_add
task_done = refl

events : Reach disconnected shut
events =
    next
      (next (next (next here (hands disconnected 0)) (written handed))
        (task (char_wr_cbk handed) (λ x. 1) task_done))
      (control tried 1 (λ e. omega (arith, e)))

Reach-silent_example : (shut.tcp.sent ≡ []) × (shut.ble_connection_status ≢ 2)
Reach-silent_example = Reach-silent disconnected (λ e. omega (arith, e)) events

-- A byte sent in each millisecond, three received.
abbrev sample : ℕ → Sample
sample n = record { tx = n * 100; rx = n * 300; now = n * 100 }

abbrev history : ℕ → History
history zero = record { tx_hist = λ i. 0; rx_hist = λ i. 0; htime = λ i. 0; histptr = 0 }
history (suc n) = (status_round (history n) (sample n)).0

abbrev samples : ℕ → List Sample
samples zero = []
samples (suc n) = sample n ∷ samples n

history-Recorded : (n : ℕ) → Recorded (history n) (samples n)
history-Recorded zero = record { ptr = omega arith; at = λ d a b. absurd (omega (arith, b)) }
history-Recorded (suc n) =
    status_round-Recorded (history n) (sample n) (samples n) (history-Recorded n)

status_round-speeds_example :
    Recorded (status_round (history 12) (sample 12)).0 (samples 13)
    × ((status_round (history 12) (sample 12)).1 ≡ some 1000)
    × ((status_round (history 12) (sample 12)).2 ≡ some 3000)
status_round-speeds_example =
    status_round-speeds (history 12) (sample 12) (samples 12) (history-Recorded 12) (omega arith)
      (λ e. omega (arith, e))
