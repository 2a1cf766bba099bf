-- ===== src/LwipIf/Init.antt =====
-- app/src/main/cpp/lwip/eth_router_if_lwip.c, `eth_lwip_if_init`: lwIP's interface in the bridge.
use Prim.Native.Nat.{bit_or}
use adapto_lite.Prelude.{ℕ, zero, suc, none, some, List, [], ◌∷◌, Bool, u8, if◌then◌else◌}
use adapto_lite.Xlib.{t_notify_create}
use adapto_lite.EthMem.State.{
  Run, done, out_of_fuel, ◌>>=◌, EthMem, set_netif, lwip_callback_from_bridge, lwip_netif_id,
}
use adapto_lite.EthMem.Queues.{eth_get_packet}
use adapto_lite.LwipIf.{LwipIf, lwip_output_to_bridge}

-- eth_router_cfg.h
abbrev pub lwip_netif_qlen : ℕ
lwip_netif_qlen = 20

-- The fields of lwIP's `struct netif` that the function sets.
pub record LwNetif : Type 0 where
  pub name : List ℕ
  pub hwaddr_len : ℕ
  pub mtu : ℕ
  pub flags : ℕ

-- NETIF_FLAG_BROADCAST | NETIF_FLAG_ETHARP
abbrev pub netif_flags : ℕ
netif_flags = 10

unfoldable pub set_names : LwNetif → LwNetif
set_names n = record n {
  name = b'L' ∷ b'W' ∷ [];
  hwaddr_len = 6;
  mtu = 1500;
  flags = bit_or n.flags netif_flags;
}

-- A random address whose first two bytes are set; `rand i` is the number for the byte `i`.
unfoldable pub random_hwaddr : (ℕ → ℕ) → List ℕ
random_hwaddr rand = 0 ∷ 128 ∷ u8 (rand 2) ∷ u8 (rand 3) ∷ u8 (rand 4) ∷ u8 (rand 5) ∷ []

-- The loop that takes what waits in the interface's queue, on `fuel`.
unfoldable pub take_all_packets : ℕ → EthMem → Run EthMem
take_all_packets zero m = out_of_fuel
take_all_packets (suc fuel) m = eth_get_packet m lwip_netif_id >>= λ (p?, m1). elim p? [
  | none ↦ done m1
  | some _ ↦ take_all_packets fuel m1
]

-- The part for the first call, when no task runs yet.
register : ℕ → LwipIf → Run LwipIf
unfolding t_notify_create take_all_packets
register fuel s =
    let m : EthMem = s.mem in
    let m1 =
      set_netif m lwip_netif_id
        (record (m.netif lwip_netif_id) { callback_fn = some lwip_callback_from_bridge }) in
    take_all_packets fuel m1 >>= λ m2. done (record s { mem = m2; task = t_notify_create })

limited : EthMem → EthMem
limited m =
    set_netif m lwip_netif_id
      (record (m.netif lwip_netif_id) { q_output_len_max = lwip_netif_qlen })

-- `netif_set_up` and `netif_set_link_up` are lwIP's. While they bring the interface up, lwIP announces its
-- address through `netif->linkoutput`, which is `lwip_output_to_bridge`: the chains that it puts
-- out, each with its `tot_len`, are an argument.
unfoldable pub bring_up : List (ℕ × List (List ℕ)) → LwipIf → Run LwipIf
bring_up [] s = done s
bring_up ((tot_len, frags) ∷ rest) s =
    lwip_output_to_bridge s tot_len frags >>= λ s1. bring_up rest s1

if_up : EthMem → EthMem
if_up m = set_netif m lwip_netif_id (record (m.netif lwip_netif_id) { if_up = 1 })

-- `first` tells that no task runs yet, and `fuel` is for the interface's queue.
unfoldable pub eth_lwip_if_init :
    (ℕ → ℕ) → Bool → ℕ → List (ℕ × List (List ℕ)) → LwipIf → LwNetif → Run (LwipIf × LwNetif)
unfolding set_names random_hwaddr register limited bring_up if_up
eth_lwip_if_init rand first fuel announced s n =
    let s1 : LwipIf = record s { hwaddr = random_hwaddr rand } in
    (if first then register fuel s1 else done s1) >>= λ s2.
    bring_up announced (record s2 { mem = limited s2.mem }) >>= λ s3.
    done (record s3 { mem = if_up s3.mem }, set_names n)
