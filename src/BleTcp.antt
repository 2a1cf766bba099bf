-- ===== src/BleTcp.antt =====
-- app/src/main/cpp/ble_tcp.c: one round of the sending task, what arrives from the link, and
-- resets. `bt_send` (the Java driver: 1 when it takes the bytes) and `ble_connection_status` are
-- arguments. Each critical section is one step.
pub mod Round
pub mod Init
pub mod Rounds
pub mod Transport
pub mod Link
pub mod Cases
pub mod Down
pub mod Acks
pub mod Ends
pub mod Tests
use adapto_lite.Prelude.{
  ℕ, suc, ◌+◌, ◌*◌, ◌/◌, ◌%◌, Option, none, some, List, [], ◌∷◌, ◌++◌, Bool, true, false, not, ◌&&◌,
  ◌||◌, ◌==◌, if◌then◌else◌, inc32, add32, low_bits, has_bit, length,
}
use adapto_lite.Prelude.Bytes.{Memory, update, read}
use adapto_lite.Xlib.{NHandle, t_notify_add, t_notify_wait}
use adapto_lite.EthMem.State.{Run, done, em_assert, bad_access, out_of_fuel, ◌>>=◌}
use adapto_lite.BleEth.{BleEth, AsmResult, gatt_eth_reset, get_next_chunk, process_dgram_asm}

-- The counted fields of `struct BLE_TCP_STATS`.
pub record BleTcpStats : Type 0 where
  pub tx_raw : ℕ
  pub rx_raw : ℕ
  pub tx_blocks : ℕ
  pub rx_empty_dg : ℕ
  pub rst_cnt : ℕ
  pub tx_bytes : ℕ
  pub rx_bytes : ℕ

-- The static variables of ble_tcp.c, those of ble_eth.c, and the blocks that `bt_send` took.
pub record BleTcp : Type 0 where
  pub eth : BleEth
  pub stats : BleTcpStats
  pub notify : NHandle
  pub ble_tx_busy : ℕ
  pub ack_sent_value : ℕ
  pub snd_blk_len : ℕ
  pub snd_blk : Memory
  pub ack_notify_request : ℕ
  pub tx_index_blk : ℕ
  pub tx_push_ptr_blk : ℕ
  pub rx_nack_blk : ℕ
  pub sent : List (List ℕ)

abbrev pub notify_next_chunk_avail : ℕ
notify_next_chunk_avail = 2

abbrev pub notify_ble_tx_complete : ℕ
notify_ble_tx_complete = 8

abbrev pub notify_nack_update : ℕ
notify_nack_update = 16

abbrev pub notify_tmr_idle : ℕ
notify_tmr_idle = 64

abbrev notify_add : BleTcp → ℕ → BleTcp
notify_add b v = record b { notify = t_notify_add b.notify v }

unfoldable pub gatt_conn_reset : BleTcp → BleTcp
gatt_conn_reset b =
    notify_add
      (record b {
        ble_tx_busy = 0;
        stats = record (b.stats) { rst_cnt = inc32 b.stats.rst_cnt };
        rx_nack_blk = 1;
        tx_index_blk = 0;
        tx_push_ptr_blk = 0;
        snd_blk_len = 0;
        eth = gatt_eth_reset b.eth;
      })
      notify_ble_tx_complete

-- `process_gatt_data(data, len)`, with `len` the length of `data`.
unfoldable pub process_gatt_data : BleTcp → List ℕ → Run BleTcp
process_gatt_data b [] = done (record b {
  stats = record (b.stats) {
    rx_raw = inc32 b.stats.rx_raw;
    rx_empty_dg = inc32 b.stats.rx_empty_dg;
  };
})
process_gatt_data b (ack ∷ rest) =
    let b1 : BleTcp = record b {
      stats = record (b.stats) {
        rx_raw = inc32 b.stats.rx_raw;
        rx_bytes = add32 b.stats.rx_bytes (length (ack ∷ rest));
      };
      rx_nack_blk = low_bits ack 6;
    } in
    let b2 = notify_add b1 notify_nack_update in
    elim rest [
      | [] ↦ done b2
      | ◌∷◌ x xs ↦ process_dgram_asm b2.eth (x ∷ xs) >>= λ (r, eth). done (record b2 { eth = eth })
    ]

unfoldable pub next_chunk_avail : BleTcp → BleTcp
next_chunk_avail b = notify_add b notify_next_chunk_avail

unfoldable pub ble_tx_complete : BleTcp → BleTcp
ble_tx_complete b = notify_add (record b { ble_tx_busy = 0 }) notify_ble_tx_complete

-- The results 0, -3, -1 and -2.
pub data SendResult : Type 0 where
  block_sent not_ready tx_busy tx_failed : SendResult

unfoldable pub ble_gatt_trysend : (List ℕ → ℕ) → ℕ → BleTcp → List ℕ → SendResult × BleTcp
ble_gatt_trysend bt_send status b data_ =
    if not (status == 2)
    then (not_ready, b)
    else if not (b.ble_tx_busy == 0)
    then (tx_busy, b)
    else if not (bt_send data_ == 1)
    then (tx_failed, record b { ble_tx_busy = 0 })
    else (
      block_sent,
      record b {
        ble_tx_busy = 1;
        stats = record (b.stats) { tx_raw = inc32 b.stats.tx_raw };
        sent = b.sent ++ data_ ∷ [];
      },
    )

-- The block that is sent: the acknowledgement, and with a chunk of `len` bytes its number, which
-- goes below the two bits of the chunk's type.
unfoldable pub header : BleTcp → ℕ → Memory
header b len =
    let blk = update b.snd_blk 0 b.rx_nack_blk in
    if len == 0 then blk else update blk 1 (low_bits b.tx_index_blk 6 + blk 1 / 64 % 4 * 64)

-- After a block of `len` bytes was taken.
sent_block : BleTcp → ℕ → BleTcp
sent_block b len = record b {
  snd_blk_len = 0;
  stats = record (b.stats) {
    tx_bytes = add32 b.stats.tx_bytes len;
    tx_blocks = inc32 b.stats.tx_blocks;
  };
  ack_sent_value = b.rx_nack_blk;
  ack_notify_request = 0;
  tx_index_blk = low_bits (b.tx_index_blk + 1) 6;
}

after_send : ℕ → SendResult × BleTcp → BleTcp
unfolding sent_block
after_send len (block_sent, b) = sent_block b len
after_send len (_, b) = b

-- The chunk in the buffer, or the next one.
load_chunk : BleTcp → Run BleTcp
load_chunk b =
    if b.snd_blk_len == 0
    then (get_next_chunk b.eth b.snd_blk >>= λ (len, blk, eth).
        done (record b { eth = eth; snd_blk = blk; snd_blk_len = len }))
    else done b

send_data : (List ℕ → ℕ) → ℕ → BleTcp → ℕ → BleTcp
unfolding after_send header
send_data bt_send status b len =
    let b1 : BleTcp = record b { snd_blk = header b b.snd_blk_len } in
    after_send len (ble_gatt_trysend bt_send status b1 (read b1.snd_blk 0 len))

-- Something is sent if there is a chunk, or an acknowledgement that is due.
unfoldable pub send_block : (List ℕ → ℕ) → ℕ → BleTcp → BleTcp
unfolding send_data
send_block bt_send status b =
    if not (b.snd_blk_len == 0)
      || not (b.ack_notify_request == 0) && not (b.ack_sent_value == b.rx_nack_blk)
    then send_data bt_send status b (if b.snd_blk_len == 0 then 1 else b.snd_blk_len)
    else b

-- One round of `BLE_TCP_Task`, woken with the notifications `res`.
unfoldable pub task_round : (List ℕ → ℕ) → ℕ → ℕ → BleTcp → Run BleTcp
unfolding load_chunk
task_round bt_send status res b =
    if (has_bit res 3 || has_bit res 1 || has_bit res 4 || has_bit res 6) && b.ble_tx_busy == 0
    then (load_chunk b >>= λ b1. done (send_block bt_send status b1))
    else done b

-- The loop of `BLE_TCP_Task`, once: the task sleeps until it is notified.
unfoldable pub task_step : (List ℕ → ℕ) → ℕ → BleTcp → Run BleTcp
unfolding task_round
task_step bt_send status b = elim (t_notify_wait b.notify) [
  | none ↦ done b
  | some (res, n) ↦ task_round bt_send status res (record b { notify = n })
]

unfoldable pub tcp_tmr : BleTcp → BleTcp
tcp_tmr b = notify_add (record b { ack_notify_request = 1 }) notify_tmr_idle
