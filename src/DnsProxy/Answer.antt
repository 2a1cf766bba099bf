-- ===== src/DnsProxy/Answer.antt =====
-- app/src/main/cpp/lwip/dnsproxy.c: from the query that `pdns_recv` gets to the answer that
-- `dnsproxy_thread` sends.
use adapto_lite.Prelude.{
  ℕ, suc, ◌+◌, ◌-◌, ◌*◌, ◌/◌, ◌%◌, ◌≤◌, ◌<◌, ◌≡◌, refl, sym, ap, ap₂, ◌∙◌, Option, some, List, [],
  ◌∷◌, ◌++◌, true, false, ltb, ◌==◌, u8, htons, arith, length, All, length-append,
}
use adapto_lite.Prelude.Bytes.{Memory, update, read, write, write_below}
use adapto_lite.DnsProxy.{
  DnsRecord, queued, examine, pdns_recv, put_bytes, answer_hdr, answer_tail, answer, serve,
  query_decode, dns_encode_name,
}
use adapto_lite.DnsProxy.Names.{
  wire, dots, Label, Starts, Starts-append, Starts-read, Starts-write, Starts-congr, append-Starts,
}
use adapto_lite.DnsProxy.Decode.{Question, query_decode-Decoded, Decoded-Encoded}

put_bytes-write :
    (rsp : Memory) (dpos : ℕ) (xs : List ℕ)
    → dpos + length xs < 256
    → put_bytes rsp dpos xs ≡ (dpos + length xs, write rsp dpos xs)
unfolding put_bytes write
put_bytes-write rsp dpos [] h = let e : dpos + 0 ≡ dpos = omega arith in rw e refl
put_bytes-write rsp dpos (x ∷ xs) h =
    let small : u8 (dpos + 1) ≡ dpos + 1 = omega (arith, h) in
    let e : dpos + suc (length xs) ≡ dpos + 1 + length xs = omega arith in
    rw (small, e) (put_bytes-write (update rsp dpos x) (dpos + 1) xs (omega arith))

-- What the buffer holds when the answer is complete.
answer-written :
    (rsp : Memory) (rec : DnsRecord) (ip : List ℕ) (n : ℕ) (end : Memory)
    → dns_encode_name (write rsp 0 (answer_hdr rec.id)) 12 rec.name ≡ some (n, end)
    → 0 < n
    → n ≤ 223
    → length ip ≡ 4
    → answer rsp rec ip ≡ some (12 + n + 20, write end (12 + n) (answer_tail ip))
unfolding answer
answer-written rsp rec ip n end e z short four =
    let dpos : u8 (12 + n) ≡ 12 + n = omega (arith, short) in
    let used : ltb 0 n ≡ true = ground (arith, z) in
    let size : length (answer_tail ip) ≡ 20 = omega (arith, four) in
    let put = put_bytes-write end (12 + n) (answer_tail ip) (omega (arith, short, size)) in
    rw (e, answer, used, dpos)
      (ap (λ (r : ℕ × Memory). some r)
        (put ∙ ap (λ (k : ℕ). (12 + n + k, write end (12 + n) (answer_tail ip))) size))

serve-answered :
    (getaddrinfo : Memory → Option (List ℕ)) (rsp : Memory) (rec : DnsRecord) (ip : List ℕ)
    (dpos : ℕ) (rsp1 : Memory)
    → getaddrinfo rec.name ≡ some ip
    → answer rsp rec ip ≡ some (dpos, rsp1)
    → serve getaddrinfo (some rsp) rec ≡ some (rec.ip, (rec.port, read rsp1 0 dpos))
unfolding serve
serve-answered getaddrinfo rsp rec ip dpos rsp1 e a = rw (e, serve, a) refl

-- A query with one question: any flags, counts of one question and no answer, any other counts.
abbrev pub query_hdr : ℕ → ℕ → ℕ → ℕ → List ℕ → List ℕ
query_hdr id0 id1 flags1 flags2 more = id0 ∷ id1 ∷ flags1 ∷ flags2 ∷ 0 ∷ 1 ∷ 0 ∷ 0 ∷ more

length-wire_pos : (l : List ℕ) (ls : List (List ℕ)) → 0 < length (wire (l ∷ ls))
unfolding wire
length-wire_pos l ls = omega arith

module _ (l : List ℕ) (ls : List (List ℕ)) (getaddrinfo : Memory → Option (List ℕ)) (ip : List ℕ)
    (four : length ip ≡ 4)
    (known : (m : Memory) → Starts m 0 (dots l ls ++ 0 ∷ []) → getaddrinfo m ≡ some ip)
    (short : length (wire (l ∷ ls)) ≤ 223) where
  -- The answer to a record with the name.
  serve-answer :
      (rsp : Memory) (rec : DnsRecord)
      → All Label (l ∷ ls)
      → length (dots l ls) ≤ 510
      → Starts rec.name 0 (dots l ls ++ 0 ∷ [])
      → serve getaddrinfo (some rsp) rec
        ≡ some (rec.ip, (rec.port, answer_hdr rec.id ++ wire (l ∷ ls) ++ answer_tail ip))
  serve-answer rsp rec labels fits name =
      let w = wire (l ∷ ls) in
      let hdr = answer_hdr rec.id in
      let (end, result, written, before) =
        Decoded-Encoded l ls rec.name (write rsp 0 hdr) 12 labels fits name in
      let n : ℕ = length w in
      let last : Memory = write end (12 + n) (answer_tail ip) in
      let done = answer-written rsp rec ip n end result (length-wire_pos l ls) short four in
      let kept : Starts last 0 (hdr ++ w) =
        append-Starts last 0 hdr w
          (Starts-congr (write rsp 0 hdr) last 0 hdr
            (λ b p q. write_below end (12 + n) (answer_tail ip) b (omega (arith, q)) ∙ before b q)
            (Starts-write rsp 0 hdr))
          (Starts-congr end last 12 w (λ b p q. write_below end (12 + n) (answer_tail ip) b q)
            written) in
      let size : 0 + length (hdr ++ w) ≡ 12 + n = omega (arith, length-append hdr w) in
      let whole : Starts last 0 ((hdr ++ w) ++ answer_tail ip) =
        append-Starts last 0 (hdr ++ w) (answer_tail ip) kept
          (rw size (Starts-write end (12 + n) (answer_tail ip))) in
      let total : length ((hdr ++ w) ++ answer_tail ip) ≡ 12 + n + 20 =
        omega (arith, length-append (hdr ++ w) (answer_tail ip), size, four) in
      serve-answered getaddrinfo rsp rec ip (12 + n + 20) last (known rec.name name) done
      ∙ ap (λ (b : List ℕ). some (rec.ip, (rec.port, b)))
          (ap (read last 0) (sym total) ∙ Starts-read last 0 ((hdr ++ w) ++ answer_tail ip) whole)

-- A message of one question and no answer whose question is decoded.
examine-queued :
    (m : Memory) (len iaddr port : ℕ) (rec r : DnsRecord) (n id : ℕ)
    → htons (m 6 + m 7 * 256) ≡ 0
    → htons (m 4 + m 5 * 256) ≡ 1
    → htons (m 0 + m 1 * 256) ≡ id
    → query_decode m 12 (len - 12) rec ≡ some (n, r)
    → examine m len iaddr port rec ≡ queued (record r { id = id; ip = iaddr; port = port })
unfolding examine
examine-queued m len iaddr port rec r n id na nq i e = rw (na, nq, e, examine, i) refl

-- A datagram of a possible length is examined, if there is a buffer for its record.
pdns_recv-examine :
    (static : Memory) (rec : DnsRecord) (bytes : List ℕ) (iaddr port : ℕ)
    → 26 ≤ length bytes
    → length bytes ≤ 1500
    → pdns_recv static (some rec) (record { tot_len = length bytes; copied = bytes }) iaddr port
      ≡ examine (write static 0 bytes) (length bytes) iaddr port rec
unfolding pdns_recv
pdns_recv-examine static rec bytes iaddr port h k =
    let long : ltb 1500 (length bytes) ≡ false = ground (arith, k) in
    let short : ltb (length bytes) 26 ≡ false = ground (arith, h) in
    let same : (length bytes == length bytes) ≡ true = ground arith in rw (long, short, same) refl

-- The message of a query: its header, the question's name, its type and class.
abbrev pub query_msg : ℕ → ℕ → ℕ → ℕ → List ℕ → List ℕ → List (List ℕ) → List ℕ → List ℕ
query_msg id0 id1 flags1 flags2 more l ls kind =
    (id0 ∷ id1 ∷ flags1 ∷ flags2 ∷ 0 ∷ 1 ∷ 0 ∷ 0 ∷ more) ++ (wire (l ∷ ls) ++ kind)

-- A query with an id, any flags, one question, no answer and any further counts.
pub record Query (id0 id1 : ℕ) (more l : List ℕ) (ls : List (List ℕ)) (kind : List ℕ) : Type 0 where
  pub id_bytes : (id0 < 256) × (id1 < 256)
  pub counts : length more ≡ 4
  pub type_and_class : length kind ≡ 4
  pub labels : All Label (l ∷ ls)
  pub long : 10 ≤ length (wire (l ∷ ls))
  pub short : length (dots l ls) ≤ 510

module _ (static : Memory) (id0 id1 flags1 flags2 : ℕ) (more l : List ℕ) (ls : List (List ℕ))
    (kind : List ℕ) (query : Query id0 id1 more l ls kind) where
  abbrev msg : List ℕ
  msg = query_msg id0 id1 flags1 flags2 more l ls kind

  abbrev m : Memory
  m = write static 0 msg

  msg-length : length msg ≡ 16 + length (wire (l ∷ ls))
  msg-length =
      let hdr : List ℕ = id0 ∷ id1 ∷ flags1 ∷ flags2 ∷ 0 ∷ 1 ∷ 0 ∷ 0 ∷ more in
      omega (
        arith,
        length-append more (wire (l ∷ ls) ++ kind),
        length-append (wire (l ∷ ls)) kind,
        query.counts,
        query.type_and_class,
      )

  msg-Question : Question m 12 (length msg - 12) l ls
  msg-Question =
      let w = wire (l ∷ ls) in
      let all = Starts-write static 0 msg in
      let hdr : List ℕ = id0 ∷ id1 ∷ flags1 ∷ flags2 ∷ 0 ∷ 1 ∷ 0 ∷ 0 ∷ more in
      let size : 0 + length hdr ≡ 12 = omega (arith, query.counts) in
      record {
        labels = query.labels;
        bytes =
            (Starts-append m 12 w kind (rw size at (Starts-append m 0 hdr (w ++ kind) all).1)).0;
        inside = omega (arith, msg-length);
        short = query.short;
      }

  query-examine :
      (rec r : DnsRecord) (iaddr port n : ℕ)
      → query_decode m 12 (length msg - 12) rec ≡ some (n, r)
      → examine m (length msg) iaddr port rec
        ≡ queued (record r { id = htons (id0 + id1 * 256); ip = iaddr; port = port })
  unfolding Starts
  query-examine rec r iaddr port n e =
      let (e0, (e1, (e2, (e3, (e4, (e5, (e6, (e7, s)))))))) = Starts-write static 0 msg in
      examine-queued m (length msg) iaddr port rec r n (htons (id0 + id1 * 256)) (rw (e6, e7) refl)
        (rw (e4, e5) refl) (rw (e0, e1) refl) e

  query-pdns_recv :
      (rec r : DnsRecord) (iaddr port n : ℕ)
      → length (wire (l ∷ ls)) ≤ 1484
      → query_decode m 12 (length msg - 12) rec ≡ some (n, r)
      → pdns_recv static (some rec) (record { tot_len = length msg; copied = msg }) iaddr port
        ≡ queued (record r { id = htons (id0 + id1 * 256); ip = iaddr; port = port })
  query-pdns_recv rec r iaddr port n fits e =
      pdns_recv-examine static rec msg iaddr port (omega (arith, msg-length, query.long))
        (omega (arith, msg-length, fits))
      ∙ query-examine rec r iaddr port n e

-- A query for a name that the resolver knows is accepted, whatever its flags and further counts,
-- and the answer that is sent for it goes to its sender and has, byte by byte, the query's id, the
-- flags of an answer, the question's name as it was asked, and one answer with the address. (The name
-- takes from 10 to 223 bytes on the wire.)
pub pdns_recv-serve :
    (static rsp : Memory) (id0 id1 flags1 flags2 : ℕ) (more l : List ℕ) (ls : List (List ℕ))
    (kind : List ℕ) (rec : DnsRecord) (iaddr port : ℕ) (getaddrinfo : Memory → Option (List ℕ))
    (ip : List ℕ)
    → Query id0 id1 more l ls kind
    → length (wire (l ∷ ls)) ≤ 223
    → ((name : Memory) → Starts name 0 (dots l ls ++ 0 ∷ []) → getaddrinfo name ≡ some ip)
    → length ip ≡ 4
    → (r : DnsRecord) × (pdns_recv static
          (some rec)
          (record {
            tot_len = length (query_msg id0 id1 flags1 flags2 more l ls kind);
            copied = query_msg id0 id1 flags1 flags2 more l ls kind;
          })
          iaddr
          port
        ≡ queued r)
      × (serve getaddrinfo (some rsp) r
          ≡ some (
            iaddr,
            (
              port,
              (id0 ∷ id1 ∷ 129 ∷ 128 ∷ 0 ∷ 1 ∷ 0 ∷ 1 ∷ 0 ∷ 0 ∷ 0 ∷ 0 ∷ [])
                  ++ wire (l ∷ ls)
                  ++ (0 ∷ 1 ∷ 0 ∷ 1 ∷ 192 ∷ 12 ∷ 0 ∷ 1 ∷ 0 ∷ 1 ∷ 0 ∷ 0 ∷ 39 ∷ 16 ∷ 0 ∷ 4 ∷ ip),
            ),
          ))
pdns_recv-serve static rsp id0 id1 flags1 flags2 more l ls kind rec iaddr port getaddrinfo ip query
      short known four =
    let msg = query_msg id0 id1 flags1 flags2 more l ls kind in
    let q = msg-Question static id0 id1 flags1 flags2 more l ls kind query in
    let (r, e, c) = query_decode-Decoded (write static 0 msg) 12 (length msg - 12) l ls rec q in
    let id : ℕ = htons (id0 + id1 * 256) in
    let rec1 : DnsRecord = record r { id = id; ip = iaddr; port = port } in
    let back : htons id ≡ id0 + id1 * 256 = omega (arith, query.id_bytes) in
    let low : htons id % 256 ≡ id0 = omega (arith, back, query.id_bytes) in
    let high : htons id / 256 ≡ id1 = omega (arith, back, query.id_bytes) in
    (
      rec1,
      query-pdns_recv static id0 id1 flags1 flags2 more l ls kind query rec r iaddr port
          (length (wire (l ∷ ls)) + 4) (omega (arith, short)) e,
      serve-answer l ls getaddrinfo ip four known short rsp rec1 query.labels query.short c.name
          ∙ ap₂
              (λ (x y : ℕ). some (
                iaddr,
                (
                  port,
                  (x ∷ y ∷ 129 ∷ 128 ∷ 0 ∷ 1 ∷ 0 ∷ 1 ∷ 0 ∷ 0 ∷ 0 ∷ 0 ∷ [])
                      ++ wire (l ∷ ls)
                      ++ (0 ∷ 1 ∷ 0 ∷ 1 ∷ 192 ∷ 12 ∷ 0 ∷ 1 ∷ 0 ∷ 1 ∷ 0 ∷ 0 ∷ 39 ∷ 16 ∷ 0 ∷ 4 ∷ ip),
                ),
              ))
              low high,
    )
