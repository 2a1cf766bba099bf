-- ===== src/BleEth/Init.antt =====
-- app/src/main/cpp/ble_eth.c: the link's interface in the bridge.
use adapto_lite.Prelude.{ℕ, some}
use adapto_lite.EthMem.State.{
  EthMem, set_netif, callback_from_bridge, ble_callback_qlen, ble_netif_id, test_netif_id,
}

-- eth_router_cfg.h
abbrev pub ble_netif_qlen : ℕ
ble_netif_qlen = 20

abbrev pub in_ble_netif_qlen_thr : ℕ
in_ble_netif_qlen_thr = 3

unfoldable pub eth_ble_if_init : EthMem → EthMem
eth_ble_if_init m =
    let m1 = set_netif m ble_netif_id (record (m.netif ble_netif_id) {
      callback_fn = some callback_from_bridge;
      q_output_len_max = ble_netif_qlen;
      q_update_cbk = some ble_callback_qlen;
      if_up = 1;
    }) in
    set_netif m1 test_netif_id
      (record (m1.netif test_netif_id) { q_output_len_max = ble_netif_qlen; if_up = 1 })
