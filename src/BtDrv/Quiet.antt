-- ===== src/BtDrv/Quiet.antt =====
-- app/src/main/cpp/bt_drv.c and app/src/main/cpp/ble_tcp.c without an open connection.
use mathlib.Core.Path.{subst}
use adapto_lite.Prelude.{
  ℕ, ◌≡◌, ◌≢◌, refl, ◌∙◌, Option, none, some, List, [], ◌∷◌, false, ◌==◌, arith, inc32, take, u16,
  length,
}
use adapto_lite.EthMem.State.{
  Run, done, em_assert, bad_access, out_of_fuel, ◌>>=◌, done-injective, EthMem, EthNetif,
}
use adapto_lite.BleEth.{callback_from_bridge}
use adapto_lite.BleTcp.Init.{qlen_callback, notify_ble_out_queue}
use adapto_lite.BleTcp.{
  BleTcp, process_gatt_data, next_chunk_avail, ble_tx_complete, tcp_tmr, task_step,
}
use adapto_lite.BleTcp.Cases.{process_gatt_data-Arrived}
use adapto_lite.BleTcp.Down.{task_step-down}
use adapto_lite.BtDrv.{
  BtDrv, tcp_task, char_wr_cbk, new_dg_from_bt, eth_ble_stack_control, tap_detected, change_dbg_scr,
}

-- `callback_from_bridge(block, enetif)`, with the notification at its end.
abbrev pub packet_handed : BtDrv → ℕ → BtDrv
packet_handed s p = record s {
  tcp = next_chunk_avail (record (s.tcp) { eth = callback_from_bridge s.tcp.eth p });
}

abbrev pub pool_changed : BtDrv → EthMem → BtDrv
pool_changed s m = record s { tcp = record (s.tcp) { eth = record (s.tcp.eth) { mem = m } } }

-- What may happen while no connection comes up: rounds of the sending task, the timer, the bridge,
-- and the calls of the Java service, with any status but 2. Of the bridge, `hands` is a packet for
-- the waiting link, `queue_length` a change of the router's queue, and `bridge` whatever else it does to the
-- pool, such as a packet put into the link's queue.
pub data Step : BtDrv → BtDrv → Type 0 where
  task : (s : BtDrv) (send : List ℕ → ℕ) {s' : BtDrv} → tcp_task send s ≡ done s' → Step s s'
  timer : (s : BtDrv) → Step s (record s { tcp = tcp_tmr s.tcp })
  hands : (s : BtDrv) (p : ℕ) → Step s (packet_handed s p)
  queue_length : (s : BtDrv) (n : EthNetif) → Step s (record s { tcp = qlen_callback s.tcp n })
  bridge : (s : BtDrv) (m : EthMem) → Step s (pool_changed s m)
  written : (s : BtDrv) → Step s (char_wr_cbk s)
  dgram : (s : BtDrv) (d : Option (List ℕ)) {s' : BtDrv} → new_dg_from_bt s d ≡ done s' → Step s s'
  control : (s : BtDrv) (status : ℕ) → status ≢ 2 → Step s (eth_ble_stack_control s status)
  tap : (s : BtDrv) → Step s (tap_detected s)
  screen : (s : BtDrv) (scr : ℕ) → Step s (change_dbg_scr s scr)

pub data Reach (s : BtDrv) : BtDrv → Type 0 where
  here : Reach s s
  next : {t u : BtDrv} → Reach s t → Step t u → Reach s u

-- No connection is open, and nothing was sent since `s`.
record Silent (s t : BtDrv) : Type 0 where
  down : t.ble_connection_status ≢ 2
  sent : t.tcp.sent ≡ s.tcp.sent

-- A step of ble_tcp.c that sends nothing.
tcp-Silent :
    (x : Run BleTcp) (s t : BtDrv) {u : BtDrv}
    → Silent s t
    → ((b : BleTcp) → x ≡ done b → b.sent ≡ t.tcp.sent)
    → (x >>= λ b. done (record t { tcp = b })) ≡ done u
    → Silent s u
tcp-Silent (done b) s t h keeps e =
    subst (λ (y : BtDrv). Silent s y) (done-injective e)
      (record { down = h.down; sent = keeps b refl ∙ h.sent })
tcp-Silent (em_assert n) s t h keeps e = cc
tcp-Silent bad_access s t h keeps e = cc
tcp-Silent out_of_fuel s t h keeps e = cc

dgram-Silent :
    (s t : BtDrv) (d : Option (List ℕ)) {u : BtDrv}
    → Silent s t
    → new_dg_from_bt t d ≡ done u
    → Silent s u
unfolding new_dg_from_bt
dgram-Silent s t none h e =
    subst (λ (y : BtDrv). Silent s y) (done-injective e) (record { down = h.down; sent = h.sent })
dgram-Silent s t (some []) h e =
    subst (λ (y : BtDrv). Silent s y) (done-injective e) (record { down = h.down; sent = h.sent })
dgram-Silent s t (some (x ∷ xs)) h e =
    let bytes = take (u16 (length (x ∷ xs))) (x ∷ xs) in
    tcp-Silent (process_gatt_data t.tcp bytes) s (record t { recvs = inc32 t.recvs })
      (record { down = h.down; sent = h.sent })
      (λ b r. (process_gatt_data-Arrived bytes t.tcp r).sent) e

control-Silent :
    (s t : BtDrv) (status : ℕ) → Silent s t → status ≢ 2 → Silent s (eth_ble_stack_control t status)
unfolding eth_ble_stack_control
control-Silent s t status h ne =
    let e : (status == 2) ≡ false = ground (arith, ne) in rw e (record { down = ne; sent = h.sent })

qlen_callback-sent : (b : BleTcp) (n : EthNetif) → (qlen_callback b n).sent ≡ b.sent
unfolding qlen_callback notify_ble_out_queue
qlen_callback-sent b n = ground arith

Step-Silent : {s t u : BtDrv} → Step t u → Silent s t → Silent s u
unfolding tcp_task char_wr_cbk tcp_tmr next_chunk_avail ble_tx_complete tap_detected change_dbg_scr
Step-Silent {s} (task t send e) h =
    let down : (t.ble_connection_status == 2) ≡ false = ground (arith, h.down) in
    tcp-Silent (task_step send t.ble_connection_status t.tcp) s t h
      (λ b r. task_step-down send t.ble_connection_status down t.tcp r) e
Step-Silent (timer t) h = record { down = h.down; sent = h.sent }
Step-Silent (hands t p) h = record { down = h.down; sent = h.sent }
Step-Silent (queue_length t n) h = record {
  down = h.down;
  sent = qlen_callback-sent t.tcp n ∙ h.sent;
}
Step-Silent (bridge t m) h = record { down = h.down; sent = h.sent }
Step-Silent (written t) h = record { down = h.down; sent = h.sent }
Step-Silent {s} (dgram t d e) h = dgram-Silent s t d h e
Step-Silent {s} (control t status ne) h = control-Silent s t status h ne
Step-Silent (tap t) h = record { down = h.down; sent = h.sent }
Step-Silent (screen t scr) h = record { down = h.down; sent = h.sent }

-- Without an open connection, and until one comes up, no block goes to the Java driver, whatever
-- the task, the timer, the bridge and the Java service do, in any order: packets that the bridge
-- hands over, changes of its queues, data and reports from the Java service included.
pub Reach-silent :
    (s : BtDrv) {t : BtDrv}
    → s.ble_connection_status ≢ 2
    → Reach s t
    → (t.tcp.sent ≡ s.tcp.sent) × (t.ble_connection_status ≢ 2)
Reach-silent s down r = let x = all r in (x.sent, x.down)
  where
    all : {t : BtDrv} → Reach s t → Silent s t
    all here = record { down = down; sent = refl }
    all (next r1 st) = Step-Silent st (all r1)
