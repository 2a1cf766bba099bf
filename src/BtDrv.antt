-- ===== src/BtDrv.antt =====
-- app/src/main/cpp/bt_drv.c: what the Java service calls, and the start of the library. The Java
-- machine is an argument: what its calls return.
pub mod Quiet
pub mod Load
pub mod Pool
pub mod Boot
pub mod Status
mod Tests
use adapto_lite.Prelude.{
  ℕ, ◌+◌, ◌-◌, ◌^◌, Option, none, some, List, [], ◌∷◌, Bool, true, false, ◌==◌, if◌then◌else◌,
  inc32, u16, length, take,
}
use adapto_lite.EthMem.State.{Run, done, ◌>>=◌}
use adapto_lite.BleTcp.{BleTcp, gatt_conn_reset, process_gatt_data, ble_tx_complete, task_step}

-- The link with the variables of the file that its functions change: the counters dbg[2] and dbg[4], and
-- the screen that is shown.
pub record BtDrv : Type 0 where
  pub tcp : BleTcp
  pub ble_connection_status : ℕ
  pub taps : ℕ
  pub recvs : ℕ
  pub dbg_scr_num : ℕ

-- -1 as an `int`.
abbrev pub minus_one : ℕ
minus_one = 2 ^ 32 - 1

-- `bt_send`: whether an array can be had, whether the method was found, and what it returns.
unfoldable pub bt_send : Bool → Bool → (List ℕ → ℕ) → List ℕ → ℕ
bt_send new_array send_method send_to_ble dgr =
    if new_array then (if send_method then send_to_ble dgr else minus_one) else minus_one

-- `char_wr_cbk`: the system wrote a block.
unfoldable pub char_wr_cbk : BtDrv → BtDrv
char_wr_cbk s = record s { tcp = ble_tx_complete s.tcp }

-- `new_dg_from_bt`: the bytes that arrived, if Java's machine gives access to them. The length goes into
-- a `uint16_t`.
unfoldable pub new_dg_from_bt : BtDrv → Option (List ℕ) → Run BtDrv
new_dg_from_bt s dgram =
    let s1 : BtDrv = record s { recvs = inc32 s.recvs } in
    elim dgram [
      | none ↦ done s1
      | some [] ↦ done s1
      | some (x ∷ xs) ↦ process_gatt_data s1.tcp (take (u16 (length (x ∷ xs))) (x ∷ xs)) >>= λ b.
          done (record s1 { tcp = b })
    ]

-- `eth_ble_stack_control`: 2 is a connection that is up.
unfoldable pub eth_ble_stack_control : BtDrv → ℕ → BtDrv
eth_ble_stack_control s status =
    let s1 : BtDrv = record s { ble_connection_status = status } in
    if status == 2 then record s1 { tcp = gatt_conn_reset s1.tcp } else s1

unfoldable pub tap_detected : BtDrv → BtDrv
tap_detected s = record s { taps = inc32 s.taps }

unfoldable pub change_dbg_scr : BtDrv → ℕ → BtDrv
change_dbg_scr s scr = record s { dbg_scr_num = scr }

-- The sending task, with the connection's status and the calls of Java in the place of its arguments.
unfoldable pub tcp_task : (List ℕ → ℕ) → BtDrv → Run BtDrv
tcp_task send s = task_step send s.ble_connection_status s.tcp >>= λ b. done (record s { tcp = b })
