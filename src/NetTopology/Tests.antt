-- ===== src/NetTopology/Tests.antt =====
-- app/src/main/cpp/lwip/net_topology.c on a table of two devices, one of them a paired controller.
use adapto_lite.Prelude.{ℕ, zero, suc, sym, ◌<◌, ◌+◌, ◌≡◌, ◌≢◌, refl, ap, List, [], ◌∷◌, arith}
use adapto_lite.NetTopology.{
  StrNetTopData, StrDevicesOnline, Topology, mac_eq, expire, sizeof_data, topology_new_dgram,
  topo_periodic, expire_cells, drop_last, collect, is_paired,
}
use adapto_lite.NetTopology.Table.{IsTable, Online, Keeps, topology_new_dgram-Online}
use adapto_lite.NetTopology.Periodic.{Heard, Periodic, topo_periodic-Periodic}

abbrev display : List ℕ
display = 2 ∷ 0 ∷ 0 ∷ 0 ∷ 0 ∷ 1 ∷ []

abbrev remote : List ℕ
remote = 2 ∷ 0 ∷ 0 ∷ 0 ∷ 0 ∷ 7 ∷ []

abbrev newcomer : List ℕ
newcomer = 2 ∷ 0 ∷ 0 ∷ 0 ∷ 0 ∷ 9 ∷ []

abbrev controller : StrNetTopData
controller = record {
  serial = 4711;
  fw_ver = 1 ∷ 2 ∷ [];
  paired_mac = display;
  name = [];
  ip_proto_enable = 1;
  flag_dhcp_enable = 0;
  netmask = 24;
  ip = 192 ∷ 168 ∷ 1 ∷ 5 ∷ [];
  gw = [];
  dev_class = 1;
}

abbrev one_device : Topology
one_device = record {
  net_devices = 1;
  devices_online = λ i. record { time = 3000; status = 1; mac = remote; info = controller };
  paired_controllers = λ i. [];
  paired_controllers_cnt = 0;
  nt_tmr = 900;
  hwaddr = display;
  paired_mac_addr = remote;
}

one_device-IsTable : IsTable one_device
one_device-IsTable = record { bound = omega arith; unique = λ i j p q e. omega (arith, p, q) }

last_byte : List ℕ → ℕ
last_byte (a ∷ b ∷ c ∷ d ∷ e ∷ f ∷ []) = f
last_byte _ = 0

newcomer-display : newcomer ≢ display
unfolding last_byte
newcomer-display e = let h = ap last_byte e in omega (arith, h)

topology_new_dgram-Online_example :
    (i : ℕ) × Online
      (topology_new_dgram 1000 one_device controller newcomer (sizeof_data + 16))
      i
      1000
      controller
      newcomer
    × Keeps one_device (topology_new_dgram 1000 one_device controller newcomer (sizeof_data + 16)) i
topology_new_dgram-Online_example =
    topology_new_dgram-Online 1000 one_device controller newcomer one_device-IsTable (omega arith)
      newcomer-display

-- The first device was heard half a second before, the second one eight seconds.
abbrev cells : ℕ → StrDevicesOnline
cells zero = record { time = 10500; status = 1; mac = remote; info = controller }
cells (suc k) = record { time = 3000; status = 1; mac = newcomer; info = controller }

abbrev two_devices : Topology
two_devices = record one_device { net_devices = 2; devices_online = cells }

newcomer-remote : newcomer ≢ remote
unfolding last_byte
newcomer-remote e = let h = ap last_byte e in omega (arith, h)

two_devices-IsTable : IsTable two_devices
two_devices-IsTable = record { bound = omega arith; unique = apart }
  where
    apart :
        (i j : ℕ)
        → i < 2
        → j < 2
        → (two_devices.devices_online i).mac ≡ (two_devices.devices_online j).mac
        → i ≡ j
    apart zero zero p q e = refl
    apart zero (suc j) p q e = absurd (newcomer-remote (sym e))
    apart (suc i) zero p q e = absurd (newcomer-remote e)
    apart (suc i) (suc j) p q e = omega (arith, p, q)

abbrev silence : ℕ → ℕ
silence zero = 500
silence (suc k) = 8000

two_devices-Heard : (k : ℕ) → k < 2 → Heard 9000 (silence k) (two_devices.devices_online k)
two_devices-Heard zero h = record { heard = 8500; time = refl; clock = refl; short = omega arith }
two_devices-Heard (suc k) h = record {
  heard = 1000;
  time = refl;
  clock = refl;
  short = omega arith;
}

topo_periodic-Periodic_example :
    IsTable (topo_periodic 9000 9001 (λ i. 9000) two_devices)
    × Periodic two_devices (topo_periodic 9000 9001 (λ i. 9000) two_devices) silence 9001
topo_periodic-Periodic_example =
    topo_periodic-Periodic 9000 9001 (λ i. 9000) silence two_devices two_devices-IsTable
      (omega arith) (omega arith) two_devices-Heard

-- The active controller is listed.
one_paired : (topo_periodic 1000 1001 (λ i. 1000) one_device).paired_controllers_cnt ≡ 1
unfolding topo_periodic expire_cells expire drop_last collect is_paired mac_eq
one_paired = refl

-- Two seconds later it has left.
none_left : (topo_periodic 9000 9001 (λ i. 9000) one_device).net_devices ≡ 0
unfolding topo_periodic expire_cells expire drop_last collect is_paired mac_eq
none_left = refl
