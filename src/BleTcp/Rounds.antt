-- ===== src/BleTcp/Rounds.antt =====
-- app/src/main/cpp/ble_tcp.c: rounds of the sending task, each followed by the driver's callback.
use adapto_lite.Prelude.{
  ℕ, zero, suc, ◌+◌, ◌≡◌, ap, List, [], ◌∷◌, ◌++◌, true, inc32, add32, low_bits, has_bit,
}
use adapto_lite.Prelude.Bytes.{Memory, read}
use adapto_lite.Xlib.{t_notify_wait, t_notify_add}
use adapto_lite.EthMem.State.{Run, done, ◌>>=◌}
use adapto_lite.BleEth.{BleEth, get_next_chunk}
use adapto_lite.BleTcp.{BleTcp, header, send_block, ble_gatt_trysend, ble_tx_complete, task_step}
use adapto_lite.BleTcp.Round.{block, nonempty, tagged, read-tagged}

-- `n` rounds of the task on an open connection; after each the driver reports that it is done.
unfoldable pub send_rounds : ℕ → (List ℕ → ℕ) → BleTcp → Run BleTcp
send_rounds zero bt_send b = done b
send_rounds (suc n) bt_send b =
    task_step bt_send 2 b >>= λ b1. send_rounds n bt_send (ble_tx_complete b1)

-- The task is woken by the driver's callback, or by `gatt_conn_reset`, with no block in its buffer.
pub record Ready (b : BleTcp) : Type 0 where
  pub count : ℕ
  pub posted : b.notify.sem ≡ suc count
  pub woken : has_bit b.notify.val 3 ≡ true
  pub idle : b.ble_tx_busy ≡ 0
  pub empty : b.snd_blk_len ≡ 0

-- The chunk `blk` of `n` bytes behind its two head bytes was sent, and the driver is done.
unfoldable pub completed : BleTcp → ℕ → ℕ → Memory → BleEth → BleTcp
unfolding tagged
completed b count n blk eth =
    let l : BleTcp = record b { eth = eth; snd_blk = blk } in
    record l {
      notify = record { val = 8; sem = count + 1 };
      ble_tx_busy = 0;
      stats = record (b.stats) {
        tx_raw = inc32 b.stats.tx_raw;
        tx_bytes = add32 b.stats.tx_bytes (suc (suc n));
        tx_blocks = inc32 b.stats.tx_blocks;
      };
      sent = b.sent ++ block l n ∷ [];
      snd_blk = tagged l;
      snd_blk_len = 0;
      ack_sent_value = b.rx_nack_blk;
      ack_notify_request = 0;
      tx_index_blk = low_bits (b.tx_index_blk + 1) 6;
    }

pub task_step-completed :
    (bt_send : List ℕ → ℕ) (b : BleTcp) (n : ℕ) (blk : Memory) (eth : BleEth) (r : Ready b)
    → get_next_chunk b.eth b.snd_blk ≡ done (suc (suc n), blk, eth)
    → ((x : List ℕ) → bt_send x ≡ 1)
    → (task_step bt_send 2 b >>= λ b1. done (ble_tx_complete b1))
      ≡ done (completed b r.count n blk eth)
unfolding task_step t_notify_wait t_notify_add send_block ble_gatt_trysend header ble_tx_complete
    completed tagged
task_step-completed bt_send b n blk eth r e all =
    let l : BleTcp = record b { eth = eth; snd_blk = blk } in
    rw (r.posted, r.woken, r.idle, r.empty, e, nonempty n, all (read (tagged l) 0 (suc (suc n))))
      (ap
        (λ (x : List ℕ). done (record (completed b r.count n blk eth) { sent = b.sent ++ x ∷ [] }))
        (read-tagged l n))
