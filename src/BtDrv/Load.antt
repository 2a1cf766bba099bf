-- ===== src/BtDrv/Load.antt =====
-- app/src/main/cpp/bt_drv.c, `JNI_OnLoad`, and app/src/main/cpp/lwip/lwip.c, `MX_LWIP_Init`: the
-- start of the program. What Java, lwIP and the system return is an argument.
use adapto_lite.Prelude.{ℕ, Option, List, [], ◌∷◌, Bool, true, false, not, if◌then◌else◌}
use adapto_lite.EthMem.State.{Run, done, ◌>>=◌}
use adapto_lite.EthRouter.{eth_router_init}
use adapto_lite.BleEth.Init.{eth_ble_if_init}
use adapto_lite.BleTcp.{BleTcp}
use adapto_lite.BleTcp.Init.{ble_tcp_init}
use adapto_lite.DnsProxy.Init.{DnsService, dnsproxy_init}
use adapto_lite.NatSockets.Init.{NatService, eth_nat_init}
use adapto_lite.LwipIf.{LwipIf}
use adapto_lite.LwipIf.Init.{LwNetif, eth_lwip_if_init}

-- The state of the parts that are started; the link works on the pool of `lwip`.
pub record Program : Type 0 where
  pub lwip : LwipIf
  pub netif : LwNetif
  pub ble : BleTcp
  pub dns : DnsService
  pub nat : NatService

-- Whether each of the environment, the two references to the class and its three methods is found;
-- the random numbers; the chains with which lwIP announces its address; and what `udp_new`,
-- `udp_bind`, the second `pipe2`, the new connection and its `listen` return.
pub record Calls : Type 0 where
  pub java : List Bool
  pub rand : ℕ → ℕ
  pub announced : List (ℕ × List (List ℕ))
  pub udp_new : Bool
  pub udp_bind : ℕ
  pub pipe2 : ℕ
  pub new_pcb : Option ℕ
  pub listen : ℕ → Option ℕ

-- lwIP's own state and the DHCP server are not part of this one. No task of the interface runs yet, and
-- its queue is empty, so one round of the loop that empties it is enough.
unfoldable pub mx_lwip_init : Calls → Program → Run Program
mx_lwip_init c p = eth_lwip_if_init c.rand true 1 c.announced p.lwip p.netif >>= λ (lw, n).
    done (record p {
      lwip = lw;
      netif = n;
      dns = dnsproxy_init p.dns.dns_q c.udp_new c.udp_bind;
      nat = eth_nat_init c.pipe2 c.new_pcb c.listen;
    })

unfoldable pub all_found : List Bool → Bool
all_found [] = true
all_found (b ∷ bs) = if b then all_found bs else false

abbrev pub share_pool : Program → Program
share_pool p = record p { ble = record (p.ble) { eth = record (p.ble.eth) { mem = p.lwip.mem } } }

-- `false` is the result JNI_ERR.
unfoldable pub jni_on_load : Calls → Program → Run (Bool × Program)
unfolding all_found
jni_on_load c p =
    if not (all_found c.java)
    then done (false, p)
    else (let m = eth_ble_if_init (eth_router_init p.lwip.mem) in
        mx_lwip_init c (record p { lwip = record (p.lwip) { mem = m }; ble = ble_tcp_init p.ble })
        >>= λ p1. done (true, share_pool p1))
