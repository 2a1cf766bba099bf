-- ===== src/DnsProxy/Decode.antt =====
-- app/src/main/cpp/lwip/dnsproxy.c, `query_decode`: the name of a question, and that
-- `dns_encode_name` writes it back.
use adapto_lite.Prelude.{
  ℕ, zero, suc, ◌+◌, ◌-◌, ◌*◌, ◌≤◌, ◌<◌, ◌≡◌, refl, sym, ap, ap₂, ◌∙◌, some, List, [], ◌∷◌, ◌++◌,
  true, false, ltb, leb, ◌==◌, arith, length, All, length-append, append_assoc,
}
use adapto_lite.Prelude.Bytes.{Memory, update, read, write, write-append}
use adapto_lite.EthMem.State.{done}
use mathlib.Core.Path.{subst}
use adapto_lite.DnsProxy.{
  DnsRecord, decode_labels, decode_rest, query_decode, dns_encode_name, name_size,
}
use adapto_lite.DnsProxy.Names.{
  wire, dots, Label, Starts, Starts-append, Starts-read, Starts-write, Starts-congr, append-Starts,
  encode_name-wire,
}

-- Labels with a dot after each.
dotted : List (List ℕ) → List ℕ
dotted [] = []
dotted (l ∷ ls) = l ++ 46 ∷ dotted ls

dotted-dots : (l : List ℕ) (ls : List (List ℕ)) → dotted (l ∷ ls) ≡ dots l ls ++ 46 ∷ []
unfolding dotted dots
dotted-dots l [] = refl
dotted-dots l (k ∷ ls) =
    ap (λ r. l ++ 46 ∷ r) (dotted-dots k ls) ∙ sym (append_assoc l (46 ∷ dots k ls) (46 ∷ []))

-- One round that finds a label.
decode_step :
    (l : List ℕ) (fuel : ℕ) (query : Memory) (q len pos outpos : ℕ) (name : Memory)
    → query (q + pos) ≡ length l
    → read query (q + pos + 1) (length l) ≡ l
    → 0 < length l
    → pos + 1 + length l ≤ len
    → outpos + length l < 511
    → decode_labels (suc fuel) query q len pos outpos name
      ≡ decode_labels fuel query q len
          (pos + 1 + length l)
          (outpos + length l + 1)
          (update (write name outpos l) (outpos + length l) 46)
unfolding decode_labels
decode_step l fuel query q len pos outpos name e r z h k =
    let here : leb len pos ≡ false = ground (arith, h) in
    let more : (length l == 0) ≡ false = ground (arith, z) in
    let room : leb 511 (outpos + length l) ≡ false = ground (arith, k) in
    let fits : ltb len (pos + 1 + length l) ≡ false = ground (arith, h) in
    rw (e, r, here, more, room, fits) refl

decode_end :
    (fuel : ℕ) (query : Memory) (q len pos outpos : ℕ) (name : Memory)
    → query (q + pos) ≡ 0
    → pos < len
    → decode_labels (suc fuel) query q len pos outpos name ≡ done (some (pos + 1, (outpos, name)))
unfolding decode_labels
decode_end fuel query q len pos outpos name e h =
    let here : leb len pos ≡ false = ground (arith, h) in rw (e, here) refl

decode_labels-wire :
    (ls : List (List ℕ)) (fuel : ℕ) (query : Memory) (q len pos outpos : ℕ) (name : Memory)
    → All Label ls
    → length ls < fuel
    → pos + length (wire ls) ≤ len
    → outpos + length (dotted ls) ≤ 511
    → Starts query (q + pos) (wire ls)
    → decode_labels fuel query q len pos outpos name
      ≡ done (
          some
            (pos + length (wire ls), (outpos + length (dotted ls), write name outpos (dotted ls))))
unfolding wire dotted Starts write
decode_labels-wire ls zero query q len pos outpos name a f h k s = absurd (omega (arith, f))
decode_labels-wire [] (suc fuel) query q len pos outpos name a f h k s =
    let e : outpos + 0 ≡ outpos = omega arith in
    rw e (decode_end fuel query q len pos outpos name s.0 (omega (arith, h)))
decode_labels-wire (l ∷ ls) (suc fuel) query q len pos outpos name ((z, b, g), a) f h k (e, s) =
    let parts = Starts-append query (q + pos + 1) l (wire ls) s in
    let size = length-append l (wire ls) in
    let size1 = length-append l (46 ∷ dotted ls) in
    let place : q + pos + 1 + length l ≡ q + (pos + 1 + length l) = omega arith in
    let next = update (write name outpos l) (outpos + length l) 46 in
    decode_step l fuel query q len pos outpos name e (Starts-read query (q + pos + 1) l parts.0) z
      (omega (arith, h, size)) (omega (arith, k, size1))
    ∙ decode_labels-wire ls fuel query q len (pos + 1 + length l) (outpos + length l + 1) next a
        (omega (arith, f)) (omega (arith, h, size)) (omega (arith, k, size1)) (rw place at parts.1)
    ∙ ap₂ (λ (n : ℕ) (x : ℕ × Memory). done (some (n, x))) (omega (arith, size))
        (ap₂ (λ (n : ℕ) (x : Memory). (n, x)) (omega (arith, size1))
          (sym (write-append name outpos l (46 ∷ dotted ls))))

length-wire : (ls : List (List ℕ)) → length ls < length (wire ls)
unfolding wire
length-wire [] = omega arith
length-wire (l ∷ ls) = omega (arith, length-append l (wire ls), length-wire ls)

-- The last dot becomes the end of the name.
dot_end :
    (name : Memory) (l : List ℕ) (ls : List (List ℕ))
    → Starts
        (update (write name 0 (dotted (l ∷ ls))) (length (dots l ls)) 0)
        0
        (dots l ls ++ 0 ∷ [])
unfolding Starts
dot_end name l ls =
    let xs = dots l ls in
    let m : Memory = write name 0 (dotted (l ∷ ls)) in
    let all = subst (Starts m 0) (dotted-dots l ls) (Starts-write name 0 (dotted (l ∷ ls))) in
    let e : 0 + length xs ≡ length xs = omega arith in
    append-Starts (update m (length xs) 0) 0 xs (0 ∷ [])
      (Starts-congr m (update m (length xs) 0) 0 xs (λ b p q. ground (arith, q))
        (Starts-append m 0 xs (46 ∷ []) all).0)
      (rw e (ground arith, tt))

-- The question whose labels are `ls` with `l` before them, at `q` of a message: within `len` bytes.
pub record Question (msg : Memory) (q len : ℕ) (l : List ℕ) (ls : List (List ℕ)) : Type 0 where
  pub labels : All Label (l ∷ ls)
  pub bytes : Starts msg q (wire (l ∷ ls))
  pub inside : length (wire (l ∷ ls)) + 4 ≤ len
  pub short : length (dots l ls) ≤ 510

-- What is decoded: the name with its dots, and the type and class behind it.
pub record Decoded (msg : Memory) (q : ℕ) (l : List ℕ) (ls : List (List ℕ)) (r : DnsRecord)
    : Type 0 where
  pub name : Starts r.name 0 (dots l ls ++ 0 ∷ [])
  pub query_type :
      r.query_type ≡ msg (q + length (wire (l ∷ ls))) * 256 + msg (q + length (wire (l ∷ ls)) + 1)
  pub query_class :
      r.query_class
      ≡ msg (q + length (wire (l ∷ ls)) + 2) * 256 + msg (q + length (wire (l ∷ ls)) + 3)

-- The record after the loop, with `n` bytes taken and a name of `k` bytes.
parsed : Memory → ℕ → ℕ → ℕ → Memory → DnsRecord → DnsRecord
parsed msg q n k m rec = record rec {
  name = update m k 0;
  query_type = msg (q + n) * 256 + msg (q + n + 1);
  query_class = msg (q + n + 2) * 256 + msg (q + n + 3);
}

decode_rest-parsed :
    (msg : Memory) (q len n k : ℕ) (m : Memory) (rec : DnsRecord)
    → n + 4 ≤ len
    → decode_rest msg q len rec (done (some (n, (suc k, m)))) ≡ some (n + 4, parsed msg q n k m rec)
unfolding decode_rest parsed
decode_rest-parsed msg q len n k m rec h =
    let fits : ltb len (n + 4) ≡ false = ground (arith, h) in
    let one : suc k - 1 ≡ k = omega arith in
    let dot : ltb 0 (suc k) ≡ true = ground arith in rw (fits, one, dot) refl

-- A question is decoded: all of its bytes are taken, and the record gets the name with dots, its end,
-- the type and the class.
pub query_decode-Decoded :
    (msg : Memory) (q len : ℕ) (l : List ℕ) (ls : List (List ℕ)) (rec : DnsRecord)
    → Question msg q len l ls
    → (r : DnsRecord) × (query_decode msg q len rec ≡ some (length (wire (l ∷ ls)) + 4, r))
      × Decoded msg q l ls r
unfolding query_decode parsed
query_decode-Decoded msg q len l ls rec h =
    let n : ℕ = length (wire (l ∷ ls)) in
    let k : ℕ = length (dots l ls) in
    let m : Memory = write rec.name 0 (dotted (l ∷ ls)) in
    let size : length (dotted (l ∷ ls)) ≡ suc k =
      ap length (dotted-dots l ls) ∙ length-append (dots l ls) (46 ∷ []) ∙ omega arith in
    let q0 : q + 0 ≡ q = omega arith in
    let z : 0 + n ≡ n = omega arith in
    let k0 : 0 + length (dotted (l ∷ ls)) ≡ suc k = omega (arith, size) in
    let found =
      decode_labels-wire (l ∷ ls) (len + 1) msg q len 0 0 rec.name h.labels
        (omega (arith, length-wire (l ∷ ls), h.inside)) (omega (arith, h.inside))
        (omega (arith, size, h.short)) (rw q0 h.bytes) in
    (
      parsed msg q n k m rec,
      ap (decode_rest msg q len rec) (rw (z, k0) at found)
          ∙ decode_rest-parsed msg q len n k m rec h.inside,
      record { name = dot_end rec.name l ls; query_type = refl; query_class = refl },
    )

-- The name is encoded as it was in the question.
pub Decoded-Encoded :
    (l : List ℕ) (ls : List (List ℕ)) (name dst : Memory) (d : ℕ)
    → All Label (l ∷ ls)
    → length (dots l ls) ≤ 510
    → Starts name 0 (dots l ls ++ 0 ∷ [])
    → (end : Memory) × (dns_encode_name dst d name ≡ some (length (wire (l ∷ ls)), end))
      × Starts end d (wire (l ∷ ls))
      × ((b : ℕ) → b < d → end b ≡ dst b)
unfolding dns_encode_name
Decoded-Encoded l ls name dst d labels short s =
    let enc = encode_name-wire l ls [] name_size dst d name 0 labels (omega (arith, short)) s in
    let z : 0 + length (wire (l ∷ ls)) ≡ length (wire (l ∷ ls)) = omega arith in
    let d0 : d + 0 ≡ d = omega arith in
    (enc.end, rw z at enc.result, rw d0 at enc.written, λ b p. enc.before b (omega (arith, p)))

-- A name that is decoded from a question and encoded for the answer is the question's name again,
-- byte by byte, wherever the answer is written.
pub dns_encode_name-query_decode :
    (msg : Memory) (q len : ℕ) (l : List ℕ) (ls : List (List ℕ)) (rec : DnsRecord) (dst : Memory)
    (d : ℕ)
    → Question msg q len l ls
    → (r : DnsRecord) × (query_decode msg q len rec ≡ some (length (wire (l ∷ ls)) + 4, r))
      × (end : Memory) × (dns_encode_name dst d r.name ≡ some (length (wire (l ∷ ls)), end))
      × (read end d (length (wire (l ∷ ls))) ≡ wire (l ∷ ls))
      × ((b : ℕ) → b < d → end b ≡ dst b)
dns_encode_name-query_decode msg q len l ls rec dst d h =
    let (r, e, c) = query_decode-Decoded msg q len l ls rec h in
    let (end, result, written, before) =
      Decoded-Encoded l ls r.name dst d h.labels h.short c.name in
    (r, e, end, result, Starts-read end d (wire (l ∷ ls)) written, before)
