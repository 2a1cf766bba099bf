-- ===== src/EthNat/Tests.antt =====
-- A table of two entries, and the theorems about eth_nat.c at it.
use adapto_lite.Prelude.{
  ℕ, ◌≤◌, ◌<◌, ◌≡◌, ◌≢◌, refl, List, [], ◌∷◌, true, false, get_or, length, All, arith, htons,
}
use adapto_lite.EthNat.{
  EthPktHdr, NatTab, Gnetif, translated, nat_divert_port, zero_entry, ethertype_ip, forward_nat,
  backward_nat, is_forwarded, is_connection,
}
use adapto_lite.EthNat.Translate.{Holds, Leads, Answer, forward_nat-Holds, forward_nat-backward_nat}
use adapto_lite.EthNat.Evict.{age, forward_nat-oldest, forward_nat-busy}

-- 10.0.0.1/8, in network byte order.
abbrev gnetif : Gnetif
gnetif = record { addr = 0x0100000a; netmask = 0xff }

-- From 10.0.0.2:5000 to 8.8.8.8:80 over TCP.
abbrev packet : EthPktHdr
packet = record {
  dst_mac = record { mac32 = 1; mac16 = 2 };
  src_mac = record { mac32 = 3; mac16 = 4 };
  ethertype = ethertype_ip;
  tos_hdrl = 0x45;
  dscp = 0;
  len = 0;
  id = 0;
  frag_offs = 0;
  ttl = 64;
  proto = 6;
  hdr_csum = 0;
  ip_src = 0x0200000a;
  ip_dst = 0x08080808;
  port_src = htons 5000;
  port_dst = htons 80;
}

abbrev reply : EthPktHdr
reply = record packet {
  ip_src = 0x0100000a;
  ip_dst = 0x0200000a;
  port_src = htons nat_divert_port;
  port_dst = htons 5000;
}

-- One entry with an open connection and one without.
abbrev table : List NatTab
table = record zero_entry { src_ip = 7; status = 1 } ∷ record zero_entry { time = 90 } ∷ []

abbrev busy_table : List NatTab
busy_table = record zero_entry { src_ip = 7; status = 1 } ∷ []

packet-Answer : Answer gnetif packet reply
packet-Answer = record {
  ethertype = refl;
  ip_src = refl;
  port_src = refl;
  proto = refl;
  ip_dst = refl;
  port_dst = refl;
}

packet_forwarded : is_forwarded gnetif packet ≡ true
unfolding is_forwarded
packet_forwarded = refl

table_fresh : All (λ e. is_connection packet e ≡ false) table
unfolding is_connection
table_fresh = (refl, (refl, tt))

busy_table_fresh : All (λ e. is_connection packet e ≡ false) busy_table
unfolding is_connection
busy_table_fresh = (refl, tt)

table-Leads : All (Leads packet) table
table-Leads = (λ x y z. absurd (omega (arith, x)), (λ x y z. absurd (omega (arith, x)), tt))

busy_table_open : All (λ e. NatTab.status e ≢ 0) busy_table
busy_table_open = (λ z. omega (arith, z), tt)

forward_nat-Holds_example :
    (i : ℕ) × (tab' : List NatTab) × (forward_nat gnetif 100 table packet
      ≡ (translated, tab', record packet { ip_dst = 0x0100000a; port_dst = htons nat_divert_port }))
    × (i < 2)
    × (length tab' ≡ 2)
    × Holds packet (get_or tab' i zero_entry)
    × ((get_or tab' i zero_entry).time ≡ 100)
    × ((j : ℕ) → i ≢ j → get_or tab' j zero_entry ≡ get_or table j zero_entry)
forward_nat-Holds_example = forward_nat-Holds gnetif 100 table packet packet_forwarded (omega arith)

forward_nat-backward_nat_example :
    backward_nat gnetif (forward_nat gnetif 100 table packet).1 reply
    ≡ (translated, record reply { ip_src = 0x08080808; port_src = htons 80 })
forward_nat-backward_nat_example =
    forward_nat-backward_nat gnetif 100 table packet reply packet_forwarded (omega arith)
      table-Leads packet-Answer

forward_nat-oldest_example :
    (i : ℕ) × (i < 2)
    × ((get_or table i zero_entry).status ≡ 0)
    × All (λ e. NatTab.status e ≡ 0 → age 100 e ≤ age 100 (get_or table i zero_entry)) table
    × Holds packet (get_or (forward_nat gnetif 100 table packet).1 i zero_entry)
    × ((k : ℕ)
        → i ≢ k
        → get_or (forward_nat gnetif 100 table packet).1 k zero_entry ≡ get_or table k zero_entry)
forward_nat-oldest_example =
    forward_nat-oldest gnetif 100 table packet 1 packet_forwarded table_fresh (omega arith) refl
      (omega arith)

forward_nat-busy_example :
    Holds packet (get_or (forward_nat gnetif 100 busy_table packet).1 0 zero_entry)
    × ((get_or (forward_nat gnetif 100 busy_table packet).1 0 zero_entry).status ≡ 1)
forward_nat-busy_example =
    forward_nat-busy gnetif 100 busy_table packet packet_forwarded busy_table_fresh (omega arith)
      busy_table_open
