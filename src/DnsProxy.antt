-- ===== src/DnsProxy.antt =====
-- app/src/main/cpp/lwip/dnsproxy.c: queries for addresses that arrive on lwIP's side go to the
-- resolver of the phone, and its answers go back. Buffers are memories of bytes, and a pointer is an
-- address in one.
pub mod Names
pub mod Init
pub mod Decode
pub mod Answer
pub mod Bounds
mod Tests
use adapto_lite.Prelude.{
  ℕ, zero, suc, ◌+◌, ◌-◌, ◌*◌, ◌/◌, ◌%◌, ◌^◌, Option, none, some, List, [], ◌∷◌, Bool, true, false,
  not, ◌||◌, ltb, leb, ◌==◌, if◌then◌else◌, u8, u16, htons, length,
}
use adapto_lite.Prelude.Bytes.{Memory, update, read, write}
use adapto_lite.EthMem.State.{Run, done, em_assert, bad_access, out_of_fuel}

-- `DNS_MSG_SIZE` of lwIP's opt.h, and the sizes of the message's parts.
abbrev pub dns_msg_size : ℕ
dns_msg_size = 1500

abbrev pub sizeof_dns_hdr : ℕ
sizeof_dns_hdr = 12

abbrev pub sizeof_dns_query : ℕ
sizeof_dns_query = 4

abbrev pub sizeof_dns_answer : ℕ
sizeof_dns_answer = 10

-- `struct DNS_RECORD`; `name` is the array of 512 bytes.
pub record DnsRecord : Type 0 where
  pub query_type : ℕ
  pub query_class : ℕ
  pub name : Memory
  pub ip : ℕ
  pub port : ℕ
  pub id : ℕ

abbrev pub name_size : ℕ
name_size = 512

-- The loop of `query_decode` on `fuel`: from `pos` of the query, which has `len` bytes, to `outpos`
-- of the name. `none` is the result -1; a loop that has not ended is `out_of_fuel`. Each round takes
-- at least the byte of a length, so `len + 1` rounds are enough.
unfoldable pub decode_labels : ℕ → Memory → ℕ → ℕ → ℕ → ℕ → Memory → Run (Option (ℕ × (ℕ × Memory)))
decode_labels zero query q len pos outpos name = out_of_fuel
decode_labels (suc fuel) query q len pos outpos name =
    let nlen : ℕ = query (q + pos) in
    let name1 : Memory = write name outpos (read query (q + pos + 1) nlen) in
    let rest =
      decode_labels fuel query q len (pos + 1 + nlen) (outpos + nlen + 1)
        (update name1 (outpos + nlen) 46) in
    if leb len pos
    then done none
    else if nlen == 0
    then done (some (pos + 1, (outpos, name)))
    else if leb (name_size - 1) (outpos + nlen)
    then done none
    else if ltb len (pos + 1 + nlen)
    then done none
    else rest

-- What follows the loop, at `pos`.
unfoldable pub decode_rest :
    Memory → ℕ → ℕ → DnsRecord → Run (Option (ℕ × (ℕ × Memory))) → Option (ℕ × DnsRecord)
decode_rest query q len out (em_assert n) = none
decode_rest query q len out bad_access = none
decode_rest query q len out out_of_fuel = none
decode_rest query q len out (done none) = none
decode_rest query q len out (done (some (pos, (outpos, name)))) =
    if ltb len (pos + 4)
    then none
    else some (
      pos + 4,
      record out {
        name = update name (if ltb 0 outpos then outpos - 1 else outpos) 0;
        query_type = query (q + pos) * 256 + query (q + pos + 1);
        query_class = query (q + pos + 2) * 256 + query (q + pos + 3);
      },
    )

-- The query of `len` bytes at `q`; `none` is the result -1.
unfoldable pub query_decode : Memory → ℕ → ℕ → DnsRecord → Option (ℕ × DnsRecord)
query_decode query q len out =
    decode_rest query q len out (decode_labels (len + 1) query q len 0 0 out.name)

-- A datagram from lwIP, with what `pbuf_copy_partial` copies of it.
pub record Datagram : Type 0 where
  pub tot_len : ℕ
  pub copied : List ℕ

-- What becomes of a datagram: it is refused before a buffer is taken for it, after that (the buffer is
-- given back), or its record goes to the queue.
pub data Received : Type 0 where
  refused given_back : Received
  queued : DnsRecord → Received

-- The message in the static buffer.
unfoldable pub examine : Memory → ℕ → ℕ → ℕ → DnsRecord → Received
examine msg tot_len iaddr port rec =
    let id : ℕ = msg 0 + msg 1 * 256 in
    let num_q : ℕ = htons (msg 4 + msg 5 * 256) in
    let num_a : ℕ = htons (msg 6 + msg 7 * 256) in
    if not (num_a == 0)
    then given_back
    else if not (num_q == 1)
    then given_back
    else elim (query_decode msg sizeof_dns_hdr (tot_len - sizeof_dns_hdr) rec) [
      | none ↦ given_back
      | some (len, r) ↦ queued (record r { id = htons id; ip = iaddr; port = port })
    ]

-- `pdns_recv`, of a datagram from `iaddr` and `port`. `rec` is what the buffer holds that
-- `eth_pbuf_alloc` returns, and `static` the static buffer's contents.
unfoldable pub pdns_recv : Memory → Option DnsRecord → Datagram → ℕ → ℕ → Received
pdns_recv static rec? p iaddr port =
    if ltb dns_msg_size p.tot_len
    then refused
    else if ltb p.tot_len (sizeof_dns_hdr + sizeof_dns_query + sizeof_dns_answer)
    then refused
    else if not (length p.copied == p.tot_len)
    then refused
    else elim rec? [
      | none ↦ refused
      | some rec ↦ examine (write static 0 p.copied) p.tot_len iaddr port rec
    ]

-- `dns_encode_name`, on `fuel`: the name is read from `pos` on, `cnt` bytes of a label stand
-- before it. `none` is a name without an end within the fuel.
unfoldable pub encode_name : ℕ → Memory → ℕ → Memory → ℕ → ℕ → Option (ℕ × Memory)
encode_name zero dst d str pos cnt = none
encode_name (suc fuel) dst d str pos cnt =
    let c : ℕ = str pos in
    let dot = encode_name fuel (update dst (d + (pos - cnt)) (u8 cnt)) d str (pos + 1) 0 in
    let byte = encode_name fuel (update dst (d + (pos + 1)) c) d str (pos + 1) (cnt + 1) in
    if c == 46
    then dot
    else if c == 0
    then some (pos + 2, update (update dst (d + (pos - cnt)) (u8 cnt)) (d + (pos + 1)) 0)
    else byte

unfoldable pub dns_encode_name : Memory → ℕ → Memory → Option (ℕ × Memory)
dns_encode_name dst d str = encode_name name_size dst d str 0 0

-- `rsp[dpos++]=x` for each of the bytes; `dpos` is a uint8_t.
unfoldable pub put_bytes : Memory → ℕ → List ℕ → ℕ × Memory
put_bytes rsp dpos [] = (dpos, rsp)
put_bytes rsp dpos (x ∷ xs) = put_bytes (update rsp dpos x) (u8 (dpos + 1)) xs

-- The header of an answer to the query `id`.
abbrev pub answer_hdr : ℕ → List ℕ
answer_hdr id = htons id % 256 ∷ htons id / 256 ∷ 129 ∷ 128 ∷ 0 ∷ 1 ∷ 0 ∷ 1 ∷ 0 ∷ 0 ∷ 0 ∷ 0 ∷ []

-- What follows the name: the question's type and class, and the one answer.
abbrev pub answer_tail : List ℕ → List ℕ
answer_tail ip = 0 ∷ 1 ∷ 0 ∷ 1 ∷ 192 ∷ 12 ∷ 0 ∷ 1 ∷ 0 ∷ 1 ∷ 0 ∷ 0 ∷ 39 ∷ 16 ∷ 0 ∷ 4 ∷ ip

-- The answer that `dnsproxy_thread` sends for a record whose name has the address `ip`: its
-- length and the buffer `rsp` of 1400 bytes afterwards.
unfoldable pub answer : Memory → DnsRecord → List ℕ → Option (ℕ × Memory)
answer rsp rec ip =
    elim (dns_encode_name (write rsp 0 (answer_hdr rec.id)) sizeof_dns_hdr rec.name) [
      | none ↦ none
      | some (ret, rsp1) ↦
          if ltb 0 ret
          then some (put_bytes rsp1 (u8 (sizeof_dns_hdr + ret)) (answer_tail ip))
          else none
    ]

-- One round of the thread's loop: `getaddrinfo` is the resolver, `none` an error or an address that
-- is not of the family AF_INET, and `buffer` is what `pbuf_alloc` returns. The result is what goes to
-- `udp_sendto`: the address, the port, and the bytes.
unfoldable pub serve :
    (Memory → Option (List ℕ)) → Option Memory → DnsRecord → Option (ℕ × (ℕ × List ℕ))
serve getaddrinfo buffer rec = elim (getaddrinfo rec.name) [
  | none ↦ none
  | some ip ↦ elim buffer [
    | none ↦ none
    | some rsp ↦ elim (answer rsp rec ip) [
      | none ↦ none
      | some (dpos, rsp1) ↦ some (rec.ip, (rec.port, read rsp1 0 dpos))
    ]
  ]
]
