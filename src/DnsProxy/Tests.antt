-- ===== src/DnsProxy/Tests.antt =====
-- app/src/main/cpp/lwip/dnsproxy.c on a query for gmail.com.
use adapto_lite.Prelude.{
  ℕ, ◌+◌, ◌≤◌, ◌<◌, ◌≡◌, refl, Option, some, List, [], ◌∷◌, ◌++◌, length, arith,
}
use adapto_lite.Prelude.Bytes.{Memory, read, write, update}
use adapto_lite.EthMem.State.{done}
use adapto_lite.Prelude.{Option}
use adapto_lite.DnsProxy.{
  DnsRecord, queued, refused, pdns_recv, serve, query_decode, decode_rest, decode_labels,
  dns_encode_name,
}
use adapto_lite.DnsProxy.Names.{wire, dots, Label, Starts-write}
use adapto_lite.DnsProxy.Decode.{Question, dns_encode_name-query_decode}
use adapto_lite.DnsProxy.Answer.{Query, query_msg, pdns_recv-serve}
use adapto_lite.DnsProxy.Bounds.{query_decode-Within, pdns_recv-short, decode_labels_end}

abbrev no_bytes : Memory
no_bytes i = 0

abbrev gmail : List ℕ
gmail = 103 ∷ 109 ∷ 97 ∷ 105 ∷ 108 ∷ []

abbrev domain : List ℕ
domain = 99 ∷ 111 ∷ 109 ∷ []

abbrev no_record : DnsRecord
no_record = record { query_type = 0; query_class = 0; name = no_bytes; ip = 0; port = 0; id = 0 }

gmail-Label : Label gmail
gmail-Label = (
  omega arith,
  omega arith,
  (
    (omega arith, omega arith),
    (
      (omega arith, omega arith),
      ((omega arith, omega arith), ((omega arith, omega arith), ((omega arith, omega arith), tt))),
    ),
  ),
)

domain-Label : Label domain
domain-Label = (
  omega arith,
  omega arith,
  ((omega arith, omega arith), ((omega arith, omega arith), ((omega arith, omega arith), tt))),
)

wire_long : 10 ≤ length (wire (gmail ∷ domain ∷ []))
unfolding wire
wire_long = omega arith

wire_short : length (wire (gmail ∷ domain ∷ [])) ≤ 223
unfolding wire
wire_short = omega arith

wire_fits : length (wire (gmail ∷ domain ∷ [])) + 4 ≤ 20
unfolding wire
wire_fits = omega arith

dots_short : length (dots gmail (domain ∷ [])) ≤ 510
unfolding dots
dots_short = omega arith

gmail-Query : Query 18 52 (0 ∷ 0 ∷ 0 ∷ 0 ∷ []) gmail (domain ∷ []) (0 ∷ 1 ∷ 0 ∷ 1 ∷ [])
gmail-Query = record {
  id_bytes = (omega arith, omega arith);
  counts = refl;
  type_and_class = refl;
  labels = (gmail-Label, (domain-Label, tt));
  long = wire_long;
  short = dots_short;
}

abbrev address : List ℕ
address = 142 ∷ 250 ∷ 1 ∷ 17 ∷ []

abbrev resolver : Memory → Option (List ℕ)
resolver name = some address

abbrev gmail_msg : List ℕ
gmail_msg = query_msg 18 52 1 0 (0 ∷ 0 ∷ 0 ∷ 0 ∷ []) gmail (domain ∷ []) (0 ∷ 1 ∷ 0 ∷ 1 ∷ [])

pdns_recv-serve_example :
    (r : DnsRecord) × (pdns_recv no_bytes
        (some no_record)
        (record { tot_len = length gmail_msg; copied = gmail_msg })
        77
        5353
      ≡ queued r)
    × (serve resolver (some no_bytes) r
        ≡ some (
          77,
          (
            5353,
            (18 ∷ 52 ∷ 129 ∷ 128 ∷ 0 ∷ 1 ∷ 0 ∷ 1 ∷ 0 ∷ 0 ∷ 0 ∷ 0 ∷ [])
                ++ wire (gmail ∷ domain ∷ [])
                ++ (0 ∷ 1 ∷ 0 ∷ 1 ∷ 192 ∷ 12 ∷ 0 ∷ 1 ∷ 0 ∷ 1 ∷ 0 ∷ 0 ∷ 39 ∷ 16 ∷ 0 ∷ 4 ∷ address),
          ),
        ))
pdns_recv-serve_example =
    pdns_recv-serve no_bytes no_bytes 18 52 1 0 (0 ∷ 0 ∷ 0 ∷ 0 ∷ []) gmail (domain ∷ [])
      (0 ∷ 1 ∷ 0 ∷ 1 ∷ []) no_record 77 5353 resolver address gmail-Query wire_short
      (λ name s. refl) refl

-- The question at the address 100 of a message.
abbrev question : Memory
question = write no_bytes 100 (wire (gmail ∷ domain ∷ []))

gmail-Question : Question question 100 20 gmail (domain ∷ [])
gmail-Question = record {
  labels = (gmail-Label, (domain-Label, tt));
  bytes = Starts-write no_bytes 100 (wire (gmail ∷ domain ∷ []));
  inside = wire_fits;
  short = dots_short;
}

dns_encode_name-query_decode_example :
    (r : DnsRecord) × (query_decode question 100 20 no_record
      ≡ some (length (wire (gmail ∷ domain ∷ [])) + 4, r))
    × (end : Memory) × (dns_encode_name no_bytes 12 r.name
        ≡ some (length (wire (gmail ∷ domain ∷ [])), end))
    × (read end 12 (length (wire (gmail ∷ domain ∷ []))) ≡ wire (gmail ∷ domain ∷ []))
    × ((b : ℕ) → b < 12 → end b ≡ no_bytes b)
dns_encode_name-query_decode_example =
    dns_encode_name-query_decode question 100 20 gmail (domain ∷ []) no_record no_bytes 12
      gmail-Question

-- A question without a name, of type 1 and class 1.
abbrev root_question : Memory
root_question = write no_bytes 0 (0 ∷ 0 ∷ 1 ∷ 0 ∷ 1 ∷ [])

abbrev root_record : DnsRecord
root_record = record no_record { query_type = 1; query_class = 1; name = update no_bytes 0 0 }

root_decoded : query_decode root_question 0 5 no_record ≡ some (5, root_record)
unfolding query_decode decode_rest decode_labels write
root_decoded = refl

query_decode-Within_example : (5 ≤ 5) × ((b : ℕ) → 512 ≤ b → root_record.name b ≡ no_record.name b)
query_decode-Within_example =
    query_decode-Within root_question 0 5 no_record root_record 5 root_decoded

decode_labels_end_example :
    (r : Option (ℕ × (ℕ × Memory))) × ((k : ℕ)
      → decode_labels (20 + 1 + k) question 100 20 0 0 no_bytes ≡ done r)
decode_labels_end_example = decode_labels_end question 100 20 no_bytes

mail_ru-wire : length (wire ((109 ∷ 97 ∷ 105 ∷ 108 ∷ []) ∷ (114 ∷ 117 ∷ []) ∷ [])) < 10
unfolding wire
mail_ru-wire = omega arith

-- A query for mail.ru.
abbrev mail_ru : List ℕ
mail_ru =
    query_msg 18 52 1 0 (0 ∷ 0 ∷ 0 ∷ 0 ∷ []) (109 ∷ 97 ∷ 105 ∷ 108 ∷ []) ((114 ∷ 117 ∷ []) ∷ [])
      (0 ∷ 1 ∷ 0 ∷ 1 ∷ [])

pdns_recv-short_example :
    pdns_recv no_bytes
      (some no_record)
      (record { tot_len = length mail_ru; copied = mail_ru })
      77
      5353
    ≡ refused
pdns_recv-short_example =
    pdns_recv-short no_bytes 18 52 1 0 (0 ∷ 0 ∷ 0 ∷ 0 ∷ []) (109 ∷ 97 ∷ 105 ∷ 108 ∷ [])
      ((114 ∷ 117 ∷ []) ∷ []) (0 ∷ 1 ∷ 0 ∷ 1 ∷ []) no_record 77 5353 refl refl mail_ru-wire
