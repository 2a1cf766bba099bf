-- ===== src/LwipIf/Tests.antt =====
-- app/src/main/cpp/lwip/eth_router_if_lwip.c on a frame of 15 bytes in three fragments.
use adapto_lite.Prelude.{ℕ, ◌≡◌, refl, none, List, [], ◌∷◌, ◌++◌, take, drop, arith}
use adapto_lite.Prelude.Bytes.{read}
use adapto_lite.EthMem.State.{done, ◌>>=◌, EthMem, lwip_netif_id}
use adapto_lite.EthMem.Pbufs.Rep.{Rep}
use adapto_lite.EthMem.Queues.{eth_add_packet_to_router_queue}
use adapto_lite.EthMem.Tests.{used_mem, used_mem-Rep}
use adapto_lite.LwipIf.{LwipIf, lwip_output_to_bridge}
use adapto_lite.LwipIf.Output.{joined, lwip_output_to_bridge-joined}

abbrev lwip_if : LwipIf
lwip_if = record {
  mem = used_mem;
  in_too_big = 0;
  in_alloc_errs = 0;
  block_to_send = none;
  task = record { val = 0; sem = 0 };
  hwaddr = 0 ∷ 128 ∷ 3 ∷ 4 ∷ 5 ∷ 6 ∷ [];
}

abbrev frame : List (List ℕ)
frame =
    (255 ∷ 255 ∷ 255 ∷ 255 ∷ 255 ∷ 255 ∷ 1 ∷ []) ∷ [] ∷ (2 ∷ 3 ∷ 4 ∷ 5 ∷ 6 ∷ 8 ∷ 6 ∷ 9 ∷ []) ∷ []

lwip_output_to_bridge-joined_example :
    (m : EthMem) × Rep m [] (1 ∷ []) (2 ∷ 0 ∷ [])
    × ((m.pbuf 2).len ≡ 15)
    × ((m.pbuf 2).if_idx ≡ lwip_netif_id)
    × (read m.bytes (m.pbuf 2).payload 15
        ≡ take 6 (joined frame) ++ (lwip_if.hwaddr ++ drop 12 (joined frame)))
    × (lwip_output_to_bridge lwip_if 15 frame
        ≡ (eth_add_packet_to_router_queue m 2 >>= λ m1. done (record lwip_if { mem = m1 })))
lwip_output_to_bridge-joined_example =
    lwip_output_to_bridge-joined lwip_if 2 frame [] (1 ∷ []) (0 ∷ []) used_mem-Rep refl
      (omega arith) (omega arith)
