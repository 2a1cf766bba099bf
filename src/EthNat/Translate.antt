-- ===== src/EthNat/Translate.antt =====
-- app/src/main/cpp/eth_nat.c: what `forward_nat` writes down, and that `backward_nat` undoes it.
use adapto_lite.Prelude.{
  ℕ, suc, ◌+◌, ◌<◌, ◌≡◌, ◌≢◌, refl, sym, ap, ap₂, ◌∙◌, some, List, [], ◌∷◌, true, false, ◌&&◌, ◌==◌,
  get_or, length, All, Bool-cases, inl, inr, arith, htons, ltb, sub32, not,
}
use mathlib.Core.Bool.{true≢false}
use adapto_lite.EthNat.{
  EthPktHdr, NatTab, Gnetif, translated, nat_divert_port, zero_entry, is_forwarded, is_answer,
  is_connection, is_receiver, find_index, set_at, older, oldest, choose_entry, forward_nat,
  backward_nat, ethertype_ip, prot_tcp, prot_udp,
}
use adapto_lite.EthNat.Table.{
  find_index-cases, length-set_at, get_or-set_at, get_or-set_at_other, All-set_at, All-get_or,
}

-- The entry holds the packet's connection.
pub record Holds (pkt : EthPktHdr) (e : NatTab) : Type 0 where
  pub src_ip : e.src_ip ≡ pkt.ip_src
  pub dst_ip : e.dst_ip ≡ pkt.ip_dst
  pub src_port : e.src_port ≡ pkt.port_src
  pub dst_port : e.dst_port ≡ pkt.port_dst
  pub proto : e.proto ≡ pkt.proto

is_connection-Holds : (pkt : EthPktHdr) (e : NatTab) → is_connection pkt e ≡ true → Holds pkt e
unfolding is_connection
is_connection-Holds pkt e h = record {
  src_ip = ground (arith, h);
  dst_ip = ground (arith, h);
  src_port = ground (arith, h);
  dst_port = ground (arith, h);
  proto = ground (arith, h);
}

older_index :
    (now : ℕ) (e : NatTab) (i n max old : ℕ) → i < n → old < n → (older now e i (max, old)).1 < n
unfolding older
older_index now e i n max old h k = elim (Bool-cases (not (e.status == 0))) [
  | inl y ↦ rw y k
  | inr f ↦ elim (Bool-cases (ltb max (sub32 now e.time))) [
    | inl y ↦ rw (f, y) h
    | inr z ↦ rw (f, z) k
  ]
]

oldest_index :
    (now : ℕ) (es : List NatTab) (i n max old : ℕ)
    → i + length es ≡ n
    → old < n
    → (oldest now es i (max, old)).1 < n
unfolding oldest
oldest_index now [] i n max old h k = k
oldest_index now (e ∷ es) i n max old h k =
    let o = older now e i (max, old) in
    oldest_index now es (suc i) n o.0 o.1 (omega (arith, h))
      (older_index now e i n max old (omega (arith, h)) k)

pub choose_entry-Holds :
    (now : ℕ) (pkt : EthPktHdr) (tab : List NatTab)
    → 0 < length tab
    → ((choose_entry now pkt tab).0 < length tab) × Holds pkt (choose_entry now pkt tab).1
unfolding choose_entry
choose_entry-Holds now pkt tab h = elim (find_index-cases (is_connection pkt) tab zero_entry) [
  | inl (e, a) ↦
      rw (e, choose_entry)
        (
          oldest_index now tab 0 (length tab) 0 0 (omega arith) h,
          record { src_ip = refl; dst_ip = refl; src_port = refl; dst_port = refl; proto = refl },
        )
  | inr (k, e, l, t) ↦ rw (e, choose_entry) (l, is_connection-Holds pkt _ t)
]

-- A packet that is to be forwarded is translated: some entry of the table holds its connection
-- and the time, every other entry is as before, and only the packet's destination has changed, to the
-- local port.
pub forward_nat-Holds :
    (g : Gnetif) (now : ℕ) (tab : List NatTab) (pkt : EthPktHdr)
    → is_forwarded g pkt ≡ true
    → 0 < length tab
    → (i : ℕ) × (tab' : List NatTab) × (forward_nat g now tab pkt
        ≡ (translated, tab', record pkt { ip_dst = g.addr; port_dst = htons nat_divert_port }))
      × (i < length tab)
      × (length tab' ≡ length tab)
      × Holds pkt (get_or tab' i zero_entry)
      × ((get_or tab' i zero_entry).time ≡ now)
      × ((j : ℕ) → i ≢ j → get_or tab' j zero_entry ≡ get_or tab j zero_entry)
unfolding forward_nat
forward_nat-Holds g now tab pkt f h =
    let (i, e) = choose_entry now pkt tab in
    let (l, c) = choose_entry-Holds now pkt tab h in
    let v : NatTab = record e { time = now } in
    let at_i = get_or-set_at tab i v zero_entry l in
    (
      i,
      set_at tab i v,
      rw f refl,
      l,
      length-set_at tab i v,
      rw at_i (record {
        src_ip = c.src_ip;
        dst_ip = c.dst_ip;
        src_port = c.src_port;
        dst_port = c.dst_port;
        proto = c.proto;
      }),
      ap (λ (x : NatTab). x.time) at_i,
      λ j ne. get_or-set_at_other tab i j v zero_entry ne,
    )

-- An entry for the packet's sender leads to the packet's receiver.
abbrev pub Leads : EthPktHdr → NatTab → Type 0
Leads pkt e =
    e.src_ip ≡ pkt.ip_src
    → e.src_port ≡ pkt.port_src
    → e.proto ≡ pkt.proto
    → (e.dst_ip ≡ pkt.ip_dst) × (e.dst_port ≡ pkt.port_dst)

-- The header of an answer to a translated packet: from the local port to the packet's sender.
pub record Answer (g : Gnetif) (pkt reply : EthPktHdr) : Type 0 where
  pub ethertype : reply.ethertype ≡ ethertype_ip
  pub ip_src : reply.ip_src ≡ g.addr
  pub port_src : reply.port_src ≡ htons nat_divert_port
  pub proto : reply.proto ≡ pkt.proto
  pub ip_dst : reply.ip_dst ≡ pkt.ip_src
  pub port_dst : reply.port_dst ≡ pkt.port_src

forwarded_proto :
    (g : Gnetif) (pkt : EthPktHdr)
    → is_forwarded g pkt ≡ true
    → (not (pkt.proto == prot_tcp) && not (pkt.proto == prot_udp)) ≡ false
unfolding is_forwarded
forwarded_proto g pkt f = ground (arith, f)

Answer-is_answer :
    (g : Gnetif) (pkt reply : EthPktHdr)
    → is_forwarded g pkt ≡ true
    → Answer g pkt reply
    → is_answer g reply ≡ true
unfolding is_answer
Answer-is_answer g pkt reply f a =
    let same : (g.addr == g.addr) ≡ true = ground arith in
    rw (a.ethertype, a.ip_src, a.proto, same, forwarded_proto g pkt f) refl

Answer-is_receiver :
    (g : Gnetif) (pkt reply : EthPktHdr) (e : NatTab)
    → Answer g pkt reply
    → Holds pkt e
    → is_receiver reply e ≡ true
unfolding is_receiver
Answer-is_receiver g pkt reply e a h =
    ground (arith, a.ip_dst, a.port_dst, a.proto, h.src_ip, h.src_port, h.proto)

Answer-Leads :
    (g : Gnetif) (pkt reply : EthPktHdr) (e : NatTab)
    → Answer g pkt reply
    → is_receiver reply e ≡ true
    → Leads pkt e
    → (e.dst_ip ≡ pkt.ip_dst) × (e.dst_port ≡ pkt.port_dst)
unfolding is_receiver
Answer-Leads g pkt reply e a r l =
    l (ground (arith, r, a.ip_dst)) (ground (arith, r, a.port_dst)) (ground (arith, r, a.proto))

backward_nat-at :
    (g : Gnetif) (tab : List NatTab) (reply : EthPktHdr) (k : ℕ)
    → is_answer g reply ≡ true
    → find_index (is_receiver reply) tab ≡ some k
    → backward_nat g tab reply ≡ (
      translated,
      record reply {
        ip_src = (get_or tab k zero_entry).dst_ip;
        port_src = (get_or tab k zero_entry).dst_port;
      },
    )
unfolding backward_nat
backward_nat-at g tab reply k a e = rw (a, e) refl

pub forward_nat-table :
    (g : Gnetif) (now : ℕ) (tab : List NatTab) (pkt : EthPktHdr)
    → is_forwarded g pkt ≡ true
    → (forward_nat g now tab pkt).1
      ≡ set_at tab (choose_entry now pkt tab).0 (record (choose_entry now pkt tab).1 { time = now })
unfolding forward_nat
forward_nat-table g now tab pkt f = rw f refl

-- Where all connections of a packet's sender lead to the packet's receiver, an answer to the translated
-- packet is translated back: it seems to come from the receiver, and nothing else in it changes.
pub forward_nat-backward_nat :
    (g : Gnetif) (now : ℕ) (tab : List NatTab) (pkt reply : EthPktHdr)
    → is_forwarded g pkt ≡ true
    → 0 < length tab
    → All (Leads pkt) tab
    → Answer g pkt reply
    → backward_nat g (forward_nat g now tab pkt).1 reply
      ≡ (translated, record reply { ip_src = pkt.ip_dst; port_src = pkt.port_dst })
forward_nat-backward_nat g now tab pkt reply f h leads a =
    let (i, e) = choose_entry now pkt tab in
    let (l, c) = choose_entry-Holds now pkt tab h in
    let v : NatTab = record e { time = now } in
    let tab' = set_at tab i v in
    let all = All-set_at (Leads pkt) tab i v (λ x y z. (c.dst_ip, c.dst_port)) leads in
    let l' : i < length tab' = rw (length-set_at tab i v) l in
    elim (find_index-cases (is_receiver reply) tab' zero_entry) [
      | inl (n, fails) ↦
          let at_i = get_or-set_at tab i v zero_entry l in
          let out = All-get_or (λ x. is_receiver reply x ≡ false) tab' i zero_entry l' fails in
          let holds : Holds pkt v = record {
            src_ip = c.src_ip;
            dst_ip = c.dst_ip;
            src_port = c.src_port;
            dst_port = c.dst_port;
            proto = c.proto;
          } in
          let passes = Answer-is_receiver g pkt reply v a holds in
          absurd (true≢false (sym passes ∙ ap (λ x. is_receiver reply x) (sym at_i) ∙ out))
      | inr (k, eq, lk, t) ↦
          let (ip, port) =
            Answer-Leads g pkt reply _ a t (All-get_or (Leads pkt) tab' k zero_entry lk all) in
          ap (λ t. backward_nat g t reply) (forward_nat-table g now tab pkt f)
          ∙ backward_nat-at g tab' reply k (Answer-is_answer g pkt reply f a) eq
          ∙ ap₂ (λ x y. (translated, record reply { ip_src = x; port_src = y })) ip port
    ]
