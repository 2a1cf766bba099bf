-- ===== src/NetRaw/Senders.antt =====
-- app/src/main/cpp/lwip/net_topology.c, the frames that it sends. Each of its static frames is the
-- address of its first byte.
use adapto_lite.Prelude.{ℕ, ◌+◌, ◌*◌, ◌/◌, ◌%◌, Option, List, [], ◌∷◌, ◌++◌, u8, take}
use adapto_lite.Prelude.Bytes.{Memory, write, bytes16}
use adapto_lite.NetTopology.{StrNetTopData, sizeof_data}
use adapto_lite.NetRaw.{Err, ethtype_adp, ethernet_send_raw, raw_send_bcast}

-- The fields of `settings` that the datagram is made of.
pub record Settings : Type 0 where
  pub serial : ℕ
  pub paired_mac_addr : List ℕ
  pub netbios_name : List ℕ
  pub ip_flags : ℕ
  pub netmask : ℕ
  pub ipv4 : List ℕ
  pub gateway : List ℕ

-- The bytes of a `struct StrNetTopData`; `reserved` are the bits of the byte 28 that have no field.
unfoldable pub data_bytes : ℕ → StrNetTopData → List ℕ
data_bytes reserved d =
    (d.serial % 256
      ∷ d.serial / 256 % 256
      ∷ d.serial / 65536 % 256
      ∷ d.serial / 16777216
      ∷ d.fw_ver)
    ++ d.paired_mac
    ++ d.name
    ++ (d.ip_proto_enable + 2 * d.flag_dhcp_enable + 4 * reserved) ∷ d.netmask ∷ []
    ++ d.ip
    ++ d.gw
    ++ bytes16 d.dev_class

module _ {ℓ} {S : Type ℓ} (linkoutput : Option (List ℕ → S → Err × S)) (hwaddr : List ℕ) where
  -- A request to the device `mac`, in the frame `a`.
  unfoldable pub topology_request : ℕ → List ℕ → Memory → ℕ → S → Memory × S
  topology_request cmd2 mac m a s =
      let m1 : Memory = write m (a + 12) (ethtype_adp / 256 ∷ u8 ethtype_adp ∷ []) in
      let m2 : Memory = write m1 (a + 18) (5 ∷ cmd2 ∷ []) in
      let m3 : Memory = write m2 a mac in
      (ethernet_send_raw linkoutput hwaddr (write m3 (a + 16) (bytes16 2)) a s).1

  unfoldable pub topology_request_pair : List ℕ → Memory → ℕ → S → Memory × S
  topology_request_pair = topology_request 0

  unfoldable pub topology_request_unpair : List ℕ → Memory → ℕ → S → Memory × S
  topology_request_unpair = topology_request 1

  unfoldable pub topology_send_update : ℕ → StrNetTopData → List ℕ → Memory → ℕ → S → Memory × S
  topology_send_update reserved d mac m a s =
      let m1 : Memory = write m (a + 12) (ethtype_adp / 256 ∷ u8 ethtype_adp ∷ []) in
      let m2 : Memory = write m1 (a + 18) (1 ∷ 0 ∷ []) in
      let m3 : Memory = write m2 (a + 20) (data_bytes reserved d) in
      let m4 : Memory = write m3 a mac in
      (ethernet_send_raw linkoutput hwaddr (write m4 (a + 16) (bytes16 (sizeof_data + 16))) a s).1

  -- The device's data about itself.
  unfoldable pub own_data : Settings → StrNetTopData
  own_data s = record {
    serial = s.serial;
    fw_ver = 0 ∷ 0 ∷ [];
    paired_mac = s.paired_mac_addr;
    name = take 16 s.netbios_name;
    ip_proto_enable = s.ip_flags % 2;
    flag_dhcp_enable = s.ip_flags / 2 % 2;
    netmask = s.netmask;
    ip = s.ipv4;
    gw = s.gateway;
    dev_class = 2;
  }

  -- The bits of the byte 28 that have no field keep what they hold.
  unfoldable pub topology_broadcast_dgram : Settings → Memory → ℕ → S → Memory × S
  topology_broadcast_dgram settings m a s =
      let m1 : Memory = write m (a + 18) (0 ∷ 0 ∷ []) in
      let m2 : Memory = write m1 (a + 20) (data_bytes (m (a + 48) / 4) (own_data settings)) in
      raw_send_bcast linkoutput hwaddr (write m2 (a + 16) (bytes16 (sizeof_data + 16))) a s
