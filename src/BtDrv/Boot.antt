-- ===== src/BtDrv/Boot.antt =====
-- app/src/main/cpp/bt_drv.c, `JNI_OnLoad`: the start of the program on zeroed memory.
use adapto_lite.Prelude.{ℕ}
use adapto_lite.EthMem.State.{EthMem}
use adapto_lite.Xlib.{t_notify_create}
use adapto_lite.EthMem.Pbufs.Rep.{Rep}
use adapto_lite.EthRouter.{eth_router_init}
use adapto_lite.BleTcp.Init.{ble_tcp_init}
use adapto_lite.LwipIf.{LwipIf}
use adapto_lite.LwipIf.Init.{set_names, random_hwaddr}
use adapto_lite.DnsProxy.Init.{dnsproxy_init}
use adapto_lite.NatSockets.Init.{eth_nat_init}
use adapto_lite.BtDrv.Load.{Program, Calls, share_pool}
use adapto_lite.BtDrv.Pool.{started, up}

-- The interface when lwIP brings it up, and the program at the end.
abbrev lwip_started : (ℕ → ℕ) → LwipIf → LwipIf
lwip_started rand lw = record lw {
  mem = started (eth_router_init lw.mem);
  task = t_notify_create;
  hwaddr = random_hwaddr rand;
}

loaded : Calls → Program → EthMem → Program
unfolding up
loaded c p m = share_pool (record p {
  lwip = record (lwip_started c.rand p.lwip) { mem = up m };
  netif = set_names p.netif;
  ble = ble_tcp_init p.ble;
  dns = dnsproxy_init p.dns.dns_q c.udp_new c.udp_bind;
  nat = eth_nat_init c.pipe2 c.new_pcb c.listen;
})
