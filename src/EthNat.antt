-- ===== src/EthNat.antt =====
-- app/src/main/cpp/eth_nat.c, the translation of addresses: packets from the link to the internet
-- are turned to a local port, and the answers get the remote address back. The headers are those
-- of `struct ETH_PKT_HDR` (app/src/main/cpp/eth_router.h), which the code lays over the packet.
-- The clock's value is the argument `now`, lwIP's own interface `gnetif` the argument `g`.
pub mod Table
pub mod Translate
pub mod Evict
mod Tests
use adapto_lite.Prelude.{
  ℕ, zero, suc, ◌+◌, ◌*◌, ◌/◌, ◌%◌, Option, none, some, List, [], ◌∷◌, Bool, true, false, not, ◌&&◌,
  ◌||◌, ltb, ◌==◌, if◌then◌else◌, htons, sub32, get_or,
}

pub record MacAddr : Type 0 where
  pub mac32 : ℕ
  pub mac16 : ℕ

-- `struct ETH_PKT_HDR`; the fields are in network byte order.
pub record EthPktHdr : Type 0 where
  pub dst_mac : MacAddr
  pub src_mac : MacAddr
  pub ethertype : ℕ
  pub tos_hdrl : ℕ
  pub dscp : ℕ
  pub len : ℕ
  pub id : ℕ
  pub frag_offs : ℕ
  pub ttl : ℕ
  pub proto : ℕ
  pub hdr_csum : ℕ
  pub ip_src : ℕ
  pub ip_dst : ℕ
  pub port_src : ℕ
  pub port_dst : ℕ

-- What the translation uses of `struct NAT_TAB`; the other fields belong to the sockets.
pub record NatTab : Type 0 where
  pub src_ip : ℕ
  pub dst_ip : ℕ
  pub src_port : ℕ
  pub dst_port : ℕ
  pub proto : ℕ
  pub time : ℕ
  pub status : ℕ

-- The address and the mask of lwIP's interface.
pub record Gnetif : Type 0 where
  pub addr : ℕ
  pub netmask : ℕ

-- The results 0 and -1.
pub data NatResult : Type 0 where
  translated no_match : NatResult

abbrev pub prot_icmp : ℕ
prot_icmp = 1

abbrev pub prot_tcp : ℕ
prot_tcp = 6

abbrev pub prot_udp : ℕ
prot_udp = 17

abbrev pub nat_divert_port : ℕ
nat_divert_port = 1234

abbrev pub ethertype_ip : ℕ
ethertype_ip = htons 0x800

-- `x & y` of words of `n` bits.
unfoldable pub bit_and : ℕ → ℕ → ℕ → ℕ
bit_and zero x y = 0
bit_and (suc n) x y = x % 2 * (y % 2) + 2 * bit_and n (x / 2) (y / 2)

-- The destination is in the subnet of lwIP's interface.
unfoldable pub is_local : Gnetif → ℕ → Bool
unfolding bit_and
is_local g ip = bit_and 32 g.addr g.netmask == bit_and 32 ip g.netmask

-- The tests at the head of `forward_nat`.
unfoldable pub is_forwarded : Gnetif → EthPktHdr → Bool
unfolding is_local
is_forwarded g pkt =
    if not (pkt.ethertype == ethertype_ip)
    then false
    else if pkt.ip_dst == 0xffffffff
    then false
    else if is_local g pkt.ip_dst
    then false
    else if not (pkt.proto == prot_tcp) && not (pkt.proto == prot_udp)
    then false
    else true

-- The index of the first entry that passes a test.
unfoldable pub find_index {ℓ} : {A : Type ℓ} → (A → Bool) → List A → Option ℕ
find_index f [] = none
find_index f (x ∷ xs) =
    let rest = find_index f xs in
    if f x then some 0 else elim rest [ none ↦ none | some i ↦ some (suc i) ]

unfoldable pub set_at {ℓ} : {A : Type ℓ} → List A → ℕ → A → List A
set_at [] i v = []
set_at (x ∷ xs) zero v = v ∷ xs
set_at (x ∷ xs) (suc i) v = x ∷ set_at xs i v

abbrev pub zero_entry : NatTab
zero_entry = record {
  src_ip = 0;
  dst_ip = 0;
  src_port = 0;
  dst_port = 0;
  proto = 0;
  time = 0;
  status = 0;
}

-- The entry of a packet's connection.
unfoldable pub is_connection : EthPktHdr → NatTab → Bool
is_connection pkt e =
    pkt.ip_src == e.src_ip
    && pkt.ip_dst == e.dst_ip
    && pkt.port_src == e.src_port
    && pkt.port_dst == e.dst_port
    && e.proto == pkt.proto

-- One round of the search for the oldest entry without an open connection: the greatest age so
-- far, and its index.
older : ℕ → NatTab → ℕ → ℕ × ℕ → ℕ × ℕ
older now e i (maxtime, oldent) =
    if not (e.status == 0)
    then (maxtime, oldent)
    else if ltb maxtime (sub32 now e.time)
    then (sub32 now e.time, i)
    else (maxtime, oldent)

oldest : ℕ → List NatTab → ℕ → ℕ × ℕ → ℕ × ℕ
unfolding older
oldest now [] i found = found
oldest now (e ∷ es) i found = oldest now es (suc i) (older now e i found)

-- The entry for a packet: its connection's, or the oldest, which becomes its connection's.
unfoldable pub choose_entry : ℕ → EthPktHdr → List NatTab → ℕ × NatTab
unfolding find_index is_connection oldest
choose_entry now pkt tab = elim (find_index (is_connection pkt) tab) [
  | some i ↦ (i, get_or tab i zero_entry)
  | none ↦
      let i : ℕ = (oldest now tab 0 (0, 0)).1 in
      let e = get_or tab i zero_entry in
      (
        i,
        record e {
          src_ip = pkt.ip_src;
          dst_ip = pkt.ip_dst;
          src_port = pkt.port_src;
          dst_port = pkt.port_dst;
          proto = pkt.proto;
        },
      )
]

-- The packet goes to the local port, and the entry `i` keeps its connection.
unfoldable pub divert :
    Gnetif → ℕ → List NatTab → EthPktHdr → ℕ × NatTab → NatResult × List NatTab × EthPktHdr
unfolding set_at
divert g now tab pkt (i, e) = (
  translated,
  set_at tab i (record e { time = now }),
  record pkt { ip_dst = g.addr; port_dst = htons nat_divert_port },
)

unfoldable pub forward_nat :
    Gnetif → ℕ → List NatTab → EthPktHdr → NatResult × List NatTab × EthPktHdr
unfolding choose_entry divert
forward_nat g now tab pkt =
    if is_forwarded g pkt
    then divert g now tab pkt (choose_entry now pkt tab)
    else (no_match, tab, pkt)

-- The tests at the head of `backward_nat`.
unfoldable pub is_answer : Gnetif → EthPktHdr → Bool
is_answer g pkt =
    if not (pkt.ethertype == ethertype_ip)
    then false
    else if not (pkt.ip_src == g.addr) && not (pkt.port_src == htons nat_divert_port)
    then false
    else if not (pkt.proto == prot_tcp)
        && not (pkt.proto == prot_udp)
        && not (pkt.proto == prot_icmp)
    then false
    else true

-- The entry of a connection of the packet's receiver.
unfoldable pub is_receiver : EthPktHdr → NatTab → Bool
is_receiver pkt e = pkt.ip_dst == e.src_ip && pkt.port_dst == e.src_port && pkt.proto == e.proto

unfoldable pub backward_nat : Gnetif → List NatTab → EthPktHdr → NatResult × EthPktHdr
unfolding find_index
backward_nat g tab pkt =
    if is_answer g pkt
    then elim (find_index (is_receiver pkt) tab) [
      | none ↦ (no_match, pkt)
      | some i ↦
          let e = get_or tab i zero_entry in
          (translated, record pkt { ip_src = e.dst_ip; port_src = e.dst_port })
    ]
    else (no_match, pkt)
