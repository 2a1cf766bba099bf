-- ===== src/NetTopology.antt =====
-- app/src/main/cpp/lwip/net_topology.c: the table of the devices in the network. A MAC address
-- and the other byte arrays are lists of bytes. Each reading of the clock is an argument.
pub mod Table
pub mod Controllers
pub mod Periodic
mod Tests
use adapto_lite.Prelude.{
  ℕ, zero, suc, ◌+◌, ◌-◌, ◌*◌, ◌/◌, ◌%◌, ◌^◌, Option, none, some, List, [], ◌∷◌, Bool, true, false,
  not, ◌&&◌, ltb, leb, ◌==◌, if◌then◌else◌, add32, sub32, u8, u16,
}
use adapto_lite.Prelude.Bytes.{Memory, update, read}

-- `struct StrNetTopData`, which a device sends about itself.
pub record StrNetTopData : Type 0 where
  pub serial : ℕ
  pub fw_ver : List ℕ
  pub paired_mac : List ℕ
  pub name : List ℕ
  pub ip_proto_enable : ℕ
  pub flag_dhcp_enable : ℕ
  pub netmask : ℕ
  pub ip : List ℕ
  pub gw : List ℕ
  pub dev_class : ℕ

-- Its layout in a frame: 40 bytes, the two flags in the byte 28.
unfoldable pub read_data : Memory → ℕ → StrNetTopData
read_data m a = record {
  serial = m a + m (a + 1) * 2 ^ 8 + m (a + 2) * 2 ^ 16 + m (a + 3) * 2 ^ 24;
  fw_ver = read m (a + 4) 2;
  paired_mac = read m (a + 6) 6;
  name = read m (a + 12) 16;
  ip_proto_enable = m (a + 28) % 2;
  flag_dhcp_enable = m (a + 28) / 2 % 2;
  netmask = m (a + 29);
  ip = read m (a + 30) 4;
  gw = read m (a + 34) 4;
  dev_class = m (a + 38) + m (a + 39) * 2 ^ 8;
}

abbrev pub sizeof_data : ℕ
sizeof_data = 40

-- `struct StrDevices_online`; the fields from `serial` on are those of the data, in their order.
pub record StrDevicesOnline : Type 0 where
  pub time : ℕ
  pub status : ℕ
  pub mac : List ℕ
  pub info : StrNetTopData

pub record Topology : Type 0 where
  pub net_devices : ℕ
  pub devices_online : ℕ → StrDevicesOnline
  pub paired_controllers : ℕ → List ℕ
  pub paired_controllers_cnt : ℕ
  pub nt_tmr : ℕ
  pub hwaddr : List ℕ
  pub paired_mac_addr : List ℕ

-- `mac_cmp(mac1, mac2)==0`, of lists of six bytes.
unfoldable pub mac_eq : List ℕ → List ℕ → Bool
mac_eq [] [] = true
mac_eq (x ∷ xs) (y ∷ ys) = x == y && mac_eq xs ys
mac_eq _ _ = false

-- Six bytes of zero.
abbrev pub no_mac : List ℕ
no_mac = 0 ∷ 0 ∷ 0 ∷ 0 ∷ 0 ∷ 0 ∷ []

unfoldable pub topology_disconnect : Topology → Topology
topology_disconnect t = record t { paired_mac_addr = no_mac }

unfoldable pub fill_cell : ℕ → StrNetTopData → StrDevicesOnline → StrDevicesOnline
fill_cell now buf cell = record cell { status = 1; time = add32 now 2000; info = buf }

-- What the loop over the table comes to: the device's cell, or the first free cell if there is one.
pub data Search : Type 0 where
  found : ℕ → Search
  free_cell : Option ℕ → Search

first_free : Option ℕ → StrDevicesOnline → ℕ → Option ℕ
first_free (some j) cell i = some j
first_free none cell i = if cell.status == 0 then some i else none

-- `n` rounds of the loop from the cell `i` on.
unfoldable pub search_cell : List ℕ → (ℕ → StrDevicesOnline) → ℕ → ℕ → Option ℕ → Search
unfolding first_free
search_cell mac cells i zero free = free_cell free
search_cell mac cells i (suc n) free =
    let rest = search_cell mac cells (i + 1) n (first_free free (cells i) i) in
    if mac_eq mac (cells i).mac then found i else rest

-- A device that has no cell takes the cell `i`.
take_cell : ℕ → Topology → StrNetTopData → List ℕ → ℕ → Topology
unfolding fill_cell
take_cell now t buf mac i = record t {
  devices_online =
      update t.devices_online i (record (fill_cell now buf (t.devices_online i)) { mac = mac });
  net_devices = if leb t.net_devices i then u8 (i + 1) else t.net_devices;
}

store_device : ℕ → Topology → StrNetTopData → List ℕ → Search → Topology
unfolding fill_cell take_cell
store_device now t buf mac (found i) = record t {
  devices_online = update t.devices_online i (fill_cell now buf (t.devices_online i));
}
store_device now t buf mac (free_cell (some i)) = take_cell now t buf mac i
store_device now t buf mac (free_cell none) =
    if ltb t.net_devices 255
    then take_cell now (record t { net_devices = u8 (t.net_devices + 1) }) buf mac t.net_devices
    else t

unfoldable pub topology_new_dgram : ℕ → Topology → StrNetTopData → List ℕ → ℕ → Topology
unfolding store_device search_cell
topology_new_dgram now t buf mac len =
    if not (len == sizeof_data + 16)
    then t
    else if mac_eq mac t.hwaddr
    then t
    else store_device now t buf mac (search_cell mac t.devices_online 0 t.net_devices none)

-- A device whose time has passed is not active any more: `(int32_t)(time-now)<0`.
unfoldable pub expire : ℕ → StrDevicesOnline → StrDevicesOnline
expire now cell = if leb (2 ^ 31) (sub32 cell.time now) then record cell { status = 0 } else cell

-- `n` rounds of the first loop from the cell `i` on; `clock i` is what the clock shows then.
unfoldable pub expire_cells : (ℕ → ℕ) → (ℕ → StrDevicesOnline) → ℕ → ℕ → ℕ → StrDevicesOnline
unfolding expire
expire_cells clock cells i zero = cells
expire_cells clock cells i (suc n) =
    expire_cells clock (update cells i (expire (clock i) (cells i))) (i + 1) n

-- The table loses its last cell if that is free.
unfoldable pub drop_last : (ℕ → StrDevicesOnline) → ℕ → ℕ
drop_last cells zero = zero
drop_last cells (suc n) = if (cells n).status == 0 then n else suc n

-- An active controller that is paired with this display.
unfoldable pub is_paired : List ℕ → StrDevicesOnline → Bool
unfolding mac_eq
is_paired hwaddr cell =
    not (cell.status == 0) && (mac_eq cell.info.paired_mac hwaddr && cell.info.dev_class == 1)

-- `n` rounds of the second loop from the cell `i` on, with `dr` controllers found so far.
unfoldable pub collect :
    List ℕ → (ℕ → StrDevicesOnline) → ℕ → ℕ → ℕ → (ℕ → List ℕ) → ℕ × (ℕ → List ℕ)
collect hwaddr cells i zero dr macs = (dr, macs)
collect hwaddr cells i (suc n) dr macs =
    let paired = is_paired hwaddr (cells i) in
    collect hwaddr cells (i + 1) n (if paired then dr + 1 else dr)
      (if paired then update macs dr (cells i).mac else macs)

-- `topo_periodic`: the clock shows `now` at the test, `now1` when the timer is set, and `clock i` at the
-- cell `i`. The timer has run out if `(int)(now-nt_tmr)>0`.
unfoldable pub topo_periodic : ℕ → ℕ → (ℕ → ℕ) → Topology → Topology
unfolding expire_cells drop_last collect
topo_periodic now now1 clock t =
    let passed : ℕ = sub32 now t.nt_tmr in
    if ltb 0 passed && ltb passed (2 ^ 31)
    then (let cells = expire_cells clock t.devices_online 0 t.net_devices in
        let d : ℕ = drop_last cells t.net_devices in
        let r = collect t.hwaddr cells 0 d 0 t.paired_controllers in
        record t {
          nt_tmr = add32 now1 500;
          devices_online = cells;
          net_devices = d;
          paired_controllers = r.1;
          paired_controllers_cnt = r.0;
        })
    else t
