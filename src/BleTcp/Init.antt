-- ===== src/BleTcp/Init.antt =====
-- app/src/main/cpp/ble_tcp.c: the start of the link, and the bridge's callback for its input queue,
-- which app/src/main/cpp/ble_eth.c registers.
use adapto_lite.Prelude.{ℕ, ltb, if◌then◌else◌}
use adapto_lite.Xlib.{t_notify_create, t_notify_add}
use adapto_lite.EthMem.State.{EthNetif}
use adapto_lite.BleEth.Init.{in_ble_netif_qlen_thr}
use adapto_lite.BleTcp.{BleTcp}

abbrev pub notify_ack_update : ℕ
notify_ack_update = 1

abbrev pub notify_push_recvd : ℕ
notify_push_recvd = 256

unfoldable pub notify_ble_out_queue : BleTcp → BleTcp
notify_ble_out_queue b = record b { notify = t_notify_add b.notify notify_push_recvd }

-- `ble_callback_qlen(netif)`
unfoldable pub qlen_callback : BleTcp → EthNetif → BleTcp
unfolding notify_ble_out_queue
qlen_callback b n =
    if ltb n.input_queue_len in_ble_netif_qlen_thr then notify_ble_out_queue b else b

-- The task's notification is created empty, and then the first one added.
unfoldable pub ble_tcp_init : BleTcp → BleTcp
unfolding t_notify_create
ble_tcp_init b = record b { notify = t_notify_add t_notify_create notify_ack_update }
