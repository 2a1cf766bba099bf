-- ===== src/DnsProxy/Bounds.antt =====
-- app/src/main/cpp/lwip/dnsproxy.c, `query_decode` on any bytes at all: it ends, it reads no
-- further than the message, and it writes no further than the name's array.
use adapto_lite.Prelude.{
  ℕ, zero, suc, ◌+◌, ◌≤◌, ◌<◌, ◌≡◌, refl, sym, ap, ◌∙◌, Option, none, some, List, true, ◌≢◌, ltb,
  leb, ◌==◌, arith, length, Bool-cases, inl, inr, ◌∷◌, ◌++◌, length-append, false,
}
use adapto_lite.Prelude.Bytes.{Memory, update, read, write, write_above, length-read}
use adapto_lite.EthMem.State.{Run, done, done-injective}
use adapto_lite.DnsProxy.{DnsRecord, decode_labels, decode_rest, query_decode, refused, pdns_recv}
use adapto_lite.DnsProxy.Names.{wire}
use adapto_lite.DnsProxy.Answer.{query_msg}

-- One round of the loop by what it meets: the end of the bytes, the end of the name, a label that does not
-- fit, or a label.
data Round (fuel : ℕ) (query : Memory) (q len pos outpos : ℕ) (name : Memory) : Type 0 where
  fails :
      ((k : ℕ) → decode_labels (suc k) query q len pos outpos name ≡ done none)
      → Round fuel query q len pos outpos name
  ends :
      pos < len
      → ((k : ℕ)
          → decode_labels (suc k) query q len pos outpos name
            ≡ done (some (pos + 1, (outpos, name))))
      → Round fuel query q len pos outpos name
  goes_on :
      (n : ℕ)
      → pos + 1 + n ≤ len
      → outpos + n < 511
      → ((k : ℕ)
          → decode_labels (suc k) query q len pos outpos name
            ≡ decode_labels k query q len
                (pos + 1 + n)
                (outpos + n + 1)
                (update (write name outpos (read query (q + pos + 1) n)) (outpos + n) 46))
      → Round fuel query q len pos outpos name

round :
    (fuel : ℕ) (query : Memory) (q len pos outpos : ℕ) (name : Memory)
    → Round fuel query q len pos outpos name
unfolding decode_labels
round fuel query q len pos outpos name =
    let n : ℕ = query (q + pos) in
    elim (Bool-cases (leb len pos)) [
      | inl a ↦ fails (λ k. rw a refl)
      | inr a ↦ elim (Bool-cases (n == 0)) [
        | inl b ↦ ends (ground (arith, a)) (λ k. rw (a, b) refl)
        | inr b ↦ elim (Bool-cases (leb 511 (outpos + n))) [
          | inl c ↦ fails (λ k. rw (a, b, c) refl)
          | inr c ↦ elim (Bool-cases (ltb len (pos + 1 + n))) [
            | inl d ↦ fails (λ k. rw (a, b, c, d) refl)
            | inr d ↦ goes_on n (ground (arith, d)) (ground (arith, c)) (λ k. rw (a, b, c, d) refl)
          ]
        ]
      ]
    ]

-- A loop with one round for each byte that is left, and one more, has ended by itself: it has this
-- result on any number of rounds more.
Ended : ℕ → Memory → ℕ → ℕ → ℕ → ℕ → Memory → Type 0
Ended fuel query q len pos outpos name =
    (r : Option (ℕ × (ℕ × Memory))) × ((k : ℕ)
      → decode_labels (fuel + k) query q len pos outpos name ≡ done r)

decode_labels-Ended :
    (fuel : ℕ) (query : Memory) (q len pos outpos : ℕ) (name : Memory)
    → 0 < fuel
    → len + 1 ≤ fuel + pos
    → Ended fuel query q len pos outpos name
unfolding Ended
decode_labels-Ended zero query q len pos outpos name z h = absurd (omega (arith, z))
decode_labels-Ended (suc fuel) query q len pos outpos name z h =
    elim (round fuel query q len pos outpos name) [
      | fails e ↦ (none, λ k. ap (at_fuel) (one_more k) ∙ e (fuel + k))
      | ends p e ↦ (some (pos + 1, (outpos, name)), λ k. ap (at_fuel) (one_more k) ∙ e (fuel + k))
      | goes_on n p r e ↦
          let (x, rest) =
            decode_labels-Ended fuel query q len (pos + 1 + n) (outpos + n + 1)
              (update (write name outpos (read query (q + pos + 1) n)) (outpos + n) 46)
              (omega (arith, h, p)) (omega (arith, h)) in
          (x, λ k. ap (at_fuel) (one_more k) ∙ e (fuel + k) ∙ rest k)
    ]
  where
    at_fuel : ℕ → Run (Option (ℕ × (ℕ × Memory)))
    at_fuel f = decode_labels f query q len pos outpos name

    one_more : (k : ℕ) → suc fuel + k ≡ suc (fuel + k)
    one_more k = omega arith

-- The result that a chain of options has.
value {ℓ} : {A : Type ℓ} → A → Option A → A
value d none = d
value d (some a) = a

some_inj {ℓ} : {A : Type ℓ} {x y : A} → some x ≡ some y → x ≡ y
unfolding value
some_inj {x = x} h = ap (value x) h

none≢some {ℓ} : {A : Type ℓ} (x : A) → none ≢ some x
none≢some x h = cc h

label_below :
    (name : Memory) (o : ℕ) (xs : List ℕ) (k b : ℕ)
    → length xs ≡ k
    → o + k < b
    → update (write name o xs) (o + k) 46 b ≡ name b
label_below name o xs k b size h =
    ground (arith, h, write_above name o xs b (omega (arith, size, h)))

-- What a decoded name tells.
record Within (name name1 : Memory) (len pos outpos : ℕ) : Type 0 where
  pub taken : pos ≤ len
  pub size : outpos ≤ 511
  pub kept : (b : ℕ) → 511 ≤ b → name1 b ≡ name b

decode_labels-Within :
    (fuel : ℕ) (query : Memory) (q len pos outpos : ℕ) (name : Memory) (n o : ℕ) (name1 : Memory)
    → outpos ≤ 511
    → decode_labels fuel query q len pos outpos name ≡ done (some (n, (o, name1)))
    → Within name name1 len n o
unfolding decode_labels
decode_labels-Within zero query q len pos outpos name n o name1 s h = cc h
decode_labels-Within (suc fuel) query q len pos outpos name n o name1 s h =
    elim (round fuel query q len pos outpos name) [
      | fails e ↦ absurd (none≢some _ (done-injective (sym (e fuel) ∙ h)))
      | ends p e ↦
          let same = some_inj (done-injective (sym (e fuel) ∙ h)) in
          record {
            taken = omega (arith, ap (λ x. x.0) same, p);
            size = omega (arith, ap (λ x. x.1.0) same, s);
            kept = λ b l. sym (ap (λ x. x.1.1 b) same);
          }
      | goes_on k p r e ↦
          let xs = read query (q + pos + 1) k in
          let name2 = update (write name outpos xs) (outpos + k) 46 in
          let rest =
            decode_labels-Within fuel query q len (pos + 1 + k) (outpos + k + 1) name2 n o name1
              (omega (arith, r)) (sym (e fuel) ∙ h) in
          let size = length-read query (q + pos + 1) k in
          record {
            taken = rest.taken;
            size = rest.size;
            kept = λ b l. rest.kept b l ∙ label_below name outpos xs k b size (omega (arith, l, r));
          }
    ]

decode_rest-Within :
    (msg : Memory) (q len : ℕ) (rec r : DnsRecord) (n pos o : ℕ) (m : Memory)
    → Within rec.name m len pos o
    → decode_rest msg q len rec (done (some (pos, (o, m)))) ≡ some (n, r)
    → (n ≤ len) × ((b : ℕ) → 512 ≤ b → r.name b ≡ rec.name b)
unfolding decode_rest
decode_rest-Within msg q len rec r n pos o m w h = elim (Bool-cases (ltb len (pos + 4))) [
  | inl e ↦ absurd (none≢some _ (rw e at h))
  | inr e ↦
      let same = some_inj (rw e at h) in
      (
        ground (arith, ap (λ x. x.0) same, e),
        λ b l. sym (ap (λ x. x.1.name b) same) ∙ ground (arith, l, w.size, w.kept b (omega arith)),
      )
]

-- The loop of `query_decode` ends within `len + 1` rounds, whatever the bytes are: it comes to a
-- result, which any number of rounds more does not change.
pub decode_labels_end :
    (query : Memory) (q len : ℕ) (name : Memory)
    → (r : Option (ℕ × (ℕ × Memory))) × ((k : ℕ)
        → decode_labels (len + 1 + k) query q len 0 0 name ≡ done r)
unfolding Ended
decode_labels_end query q len name =
    decode_labels-Ended (len + 1) query q len 0 0 name (omega arith) (omega arith)

query_result :
    (msg : Memory) (q len : ℕ) (rec r : DnsRecord) (n : ℕ) (x : Option (ℕ × (ℕ × Memory)))
    → decode_labels (len + 1) msg q len 0 0 rec.name ≡ done x
    → decode_rest msg q len rec (done x) ≡ some (n, r)
    → (n ≤ len) × ((b : ℕ) → 512 ≤ b → r.name b ≡ rec.name b)
unfolding decode_rest
query_result msg q len rec r n none e h = absurd (none≢some (n, r) h)
query_result msg q len rec r n (some (pos, (o, m))) e h =
    decode_rest-Within msg q len rec r n pos o m
      (decode_labels-Within (len + 1) msg q len 0 0 rec.name pos o m (omega arith) e) h

-- Whatever the bytes of a query are, a record that is decoded from it has taken no more bytes than it has,
-- and nothing behind the name's 512 bytes was written.
pub query_decode-Within :
    (msg : Memory) (q len : ℕ) (rec r : DnsRecord) (n : ℕ)
    → query_decode msg q len rec ≡ some (n, r)
    → (n ≤ len) × ((b : ℕ) → 512 ≤ b → r.name b ≡ rec.name b)
unfolding query_decode decode_rest
query_decode-Within msg q len rec r n h =
    let (x, run) = decode_labels_end msg q len rec.name in
    let f : len + 1 + 0 ≡ len + 1 = omega arith in
    let e = ap (λ y. decode_labels y msg q len 0 0 rec.name) (sym f) ∙ run 0 in
    query_result msg q len rec r n x e (sym (ap (decode_rest msg q len rec) e) ∙ h)

-- A well-formed query without further records, of one question whose name takes less than 10 bytes on the
-- wire, is refused for its length.
pub pdns_recv-short :
    (static : Memory) (id0 id1 flags1 flags2 : ℕ) (more l : List ℕ) (ls : List (List ℕ))
    (kind : List ℕ) (rec : DnsRecord) (iaddr port : ℕ)
    → length more ≡ 4
    → length kind ≡ 4
    → length (wire (l ∷ ls)) < 10
    → pdns_recv static
        (some rec)
        (record {
          tot_len = length (query_msg id0 id1 flags1 flags2 more l ls kind);
          copied = query_msg id0 id1 flags1 flags2 more l ls kind;
        })
        iaddr
        port
      ≡ refused
unfolding pdns_recv
pdns_recv-short static id0 id1 flags1 flags2 more l ls kind rec iaddr port m k h =
    let msg = query_msg id0 id1 flags1 flags2 more l ls kind in
    let size : length msg ≡ 16 + length (wire (l ∷ ls)) = omega (
      arith,
      length-append more (wire (l ∷ ls) ++ kind),
      length-append (wire (l ∷ ls)) kind,
      m,
      k,
    ) in
    let fits : ltb 1500 (length msg) ≡ false = ground (arith, size, h) in
    let short : ltb (length msg) 26 ≡ true = ground (arith, size, h) in rw (fits, short) refl
