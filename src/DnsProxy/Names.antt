-- ===== src/DnsProxy/Names.antt =====
-- app/src/main/cpp/lwip/dnsproxy.c, `dns_encode_name`: the wire form of a name with dots.
use adapto_lite.Prelude.{
  ℕ, suc, ◌+◌, ◌-◌, ◌≤◌, ◌<◌, ◌≡◌, ◌≢◌, refl, ap, ap₂, ◌∙◌, Option, some, List, [], ◌∷◌, ◌++◌,
  false, ◌==◌, u8, arith, length, All, length-append, append_assoc,
}
use adapto_lite.Prelude.Bytes.{Memory, update, read, write, write_below}
use mathlib.Core.Path.{subst}
use adapto_lite.DnsProxy.{encode_name}

-- The labels of a name on the wire: each with its length before it, and an end.
unfoldable pub wire : List (List ℕ) → List ℕ
wire [] = 0 ∷ []
wire (l ∷ ls) = length l ∷ (l ++ wire ls)

-- The labels with dots between them.
unfoldable pub dots : List ℕ → List (List ℕ) → List ℕ
dots l [] = l
dots l (k ∷ ls) = l ++ 46 ∷ dots k ls

-- A label can stand in a name with dots, and its length in a byte.
abbrev pub Label : List ℕ → Type 0
Label l = (0 < length l) × (length l < 256) × All (λ c. (c ≢ 0) × (c ≢ 46)) l

-- The bytes from `a` on are `xs`.
unfoldable pub Starts : Memory → ℕ → List ℕ → Type 0
Starts m a [] = Unit
Starts m a (x ∷ xs) = (m a ≡ x) × Starts m (a + 1) xs

pub Starts-append :
    (m : Memory) (a : ℕ) (xs ys : List ℕ)
    → Starts m a (xs ++ ys)
    → Starts m a xs × Starts m (a + length xs) ys
unfolding Starts
Starts-append m a [] ys s = let e : a + 0 ≡ a = omega arith in (tt, rw e s)
Starts-append m a (x ∷ xs) ys (e, s) =
    let p : a + suc (length xs) ≡ a + 1 + length xs = omega arith in
    let r = Starts-append m (a + 1) xs ys s in ((e, r.0), rw p r.1)

pub append-Starts :
    (m : Memory) (a : ℕ) (xs ys : List ℕ)
    → Starts m a xs
    → Starts m (a + length xs) ys
    → Starts m a (xs ++ ys)
unfolding Starts
append-Starts m a [] ys s t = let e : a + 0 ≡ a = omega arith in rw e at t
append-Starts m a (x ∷ xs) ys (e, s) t =
    let p : a + suc (length xs) ≡ a + 1 + length xs = omega arith in
    (e, append-Starts m (a + 1) xs ys s (rw p at t))

pub Starts-congr :
    (m k : Memory) (a : ℕ) (xs : List ℕ)
    → ((b : ℕ) → a ≤ b → b < a + length xs → k b ≡ m b)
    → Starts m a xs
    → Starts k a xs
unfolding Starts
Starts-congr m k a [] h s = tt
Starts-congr m k a (x ∷ xs) h (e, s) = (
  h a (omega arith) (omega arith) ∙ e,
  Starts-congr m k (a + 1) xs (λ b p q. h b (omega (arith, p)) (omega (arith, q))) s,
)

pub Starts-write : (m : Memory) (a : ℕ) (xs : List ℕ) → Starts (write m a xs) a xs
unfolding Starts write
Starts-write m a [] = tt
Starts-write m a (x ∷ xs) = (
  write_below (update m a x) (a + 1) xs a (omega arith) ∙ ground arith,
  Starts-write (update m a x) (a + 1) xs,
)

pub Starts-read : (m : Memory) (a : ℕ) (xs : List ℕ) → Starts m a xs → read m a (length xs) ≡ xs
unfolding Starts read
Starts-read m a [] s = refl
Starts-read m a (x ∷ xs) (e, s) = ap₂ ◌∷◌ e (Starts-read m (a + 1) xs s)

-- The rounds of one label, after `cnt` of its bytes.
encode_name-label :
    (l rest : List ℕ) (fuel : ℕ) (dst : Memory) (d : ℕ) (str : Memory) (pos cnt : ℕ)
    → All (λ c. (c ≢ 0) × (c ≢ 46)) l
    → Starts str pos (l ++ rest)
    → encode_name (length l + fuel) dst d str pos cnt
      ≡ encode_name fuel (write dst (d + (pos + 1)) l) d str (pos + length l) (cnt + length l)
unfolding encode_name Starts write
encode_name-label [] rest fuel dst d str pos cnt a s =
    let p : pos + 0 ≡ pos = omega arith in
    let c : cnt + 0 ≡ cnt = omega arith in
    let f : 0 + fuel ≡ fuel = omega arith in rw (p, c, f) refl
encode_name-label (x ∷ l) rest fuel dst d str pos cnt (n, a) (e, s) =
    let f : suc (length l) + fuel ≡ suc (length l + fuel) = omega arith in
    let p : pos + suc (length l) ≡ pos + 1 + length l = omega arith in
    let c : cnt + suc (length l) ≡ cnt + 1 + length l = omega arith in
    let w : d + (pos + 1 + 1) ≡ d + (pos + 1) + 1 = omega arith in
    let byte : (str pos == 46) ≡ false = ground (arith, e, n) in
    let more : (str pos == 0) ≡ false = ground (arith, e, n) in
    let next =
      encode_name-label l rest fuel (update dst (d + (pos + 1)) (str pos)) d str (pos + 1) (cnt + 1)
        a s in
    rw (f, p, c, encode_name, byte, more, e) (rw (w, e) at next)

-- What the rounds from `pos` on leave: the end, and the names' wire form in `dst`.
pub record Encoded (r : Option (ℕ × Memory)) (dst : Memory) (d pos : ℕ) (w : List ℕ) : Type 0 where
  pub end : Memory
  pub result : r ≡ some (pos + length w, end)
  pub written : Starts end (d + pos) w
  pub before : (b : ℕ) → b < d + pos → end b ≡ dst b

-- The length before a label that was copied.
labelled : Memory → ℕ → List ℕ → Memory
labelled dst a l = update (write dst (a + 1) l) a (u8 (length l))

labelled-Starts :
    (dst : Memory) (a : ℕ) (l : List ℕ)
    → length l < 256
    → Starts (labelled dst a l) a (length l ∷ l)
unfolding labelled Starts
labelled-Starts dst a l h = (
  ground (arith, h),
  Starts-congr (write dst (a + 1) l) (labelled dst a l) (a + 1) l (λ b p q. ground (arith, p))
      (Starts-write dst (a + 1) l),
)

labelled_before : (dst : Memory) (a : ℕ) (l : List ℕ) (b : ℕ) → b < a → labelled dst a l b ≡ dst b
unfolding labelled
labelled_before dst a l b h = ground (arith, h, write_below dst (a + 1) l b (omega (arith, h)))

encode_end :
    (n fuel : ℕ) (w : Memory) (d : ℕ) (str : Memory) (pos : ℕ)
    → str (pos + n) ≡ 0
    → encode_name (suc fuel) w d str (pos + n) n
      ≡ some (pos + n + 2, update (update w (d + pos) (u8 n)) (d + pos + suc n) 0)
unfolding encode_name
encode_end n fuel w d str pos e =
    let p : pos + n - n ≡ pos = omega arith in
    let q : d + (pos + n + 1) ≡ d + pos + suc n = omega arith in rw (e, p, q) refl

encode_dot :
    (n fuel : ℕ) (w : Memory) (d : ℕ) (str : Memory) (pos : ℕ)
    → str (pos + n) ≡ 46
    → encode_name (suc fuel) w d str (pos + n) n
      ≡ encode_name fuel (update w (d + pos) (u8 n)) d str (pos + n + 1) 0
unfolding encode_name
encode_dot n fuel w d str pos e = let p : pos + n - n ≡ pos = omega arith in rw (e, p) refl

-- The rounds of a whole label, up to the byte after it.
encode_name-whole :
    (l rest : List ℕ) (fuel : ℕ) (dst : Memory) (d : ℕ) (str : Memory) (pos : ℕ)
    → All (λ c. (c ≢ 0) × (c ≢ 46)) l
    → Starts str pos (l ++ rest)
    → encode_name (length l + fuel) dst d str pos 0
      ≡ encode_name fuel (write dst (d + pos + 1) l) d str (pos + length l) (length l)
encode_name-whole l rest fuel dst d str pos a s =
    let z : 0 + length l ≡ length l = omega arith in
    let w : d + (pos + 1) ≡ d + pos + 1 = omega arith in
    rw (z, w) at (encode_name-label l rest fuel dst d str pos 0 a s)

-- The byte after a label.
after_label :
    (l : List ℕ) (c : ℕ) (rest : List ℕ) (str : Memory) (pos : ℕ)
    → Starts str pos (l ++ c ∷ rest)
    → str (pos + length l) ≡ c
unfolding Starts
after_label l c rest str pos s = (Starts-append str pos l (c ∷ rest) s).1.0

encode_name-last :
    (l rest : List ℕ) (fuel : ℕ) (dst : Memory) (d : ℕ) (str : Memory) (pos : ℕ)
    → Label l
    → Starts str pos (l ++ 0 ∷ rest)
    → Encoded (encode_name (length l + suc fuel) dst d str pos 0) dst d pos (wire (l ∷ []))
unfolding wire labelled Starts
encode_name-last l rest fuel dst d str pos (z, h, a) s =
    let m : Memory = labelled dst (d + pos) l in
    let e : Memory = update m (d + pos + suc (length l)) 0 in
    let size : pos + length l + 2 ≡ pos + suc (length (l ++ 0 ∷ [])) =
      omega (arith, length-append l (0 ∷ [])) in
    record {
      end = e;
      result =
          encode_name-whole l (0 ∷ rest) (suc fuel) dst d str pos a s
          ∙ encode_end (length l) fuel (write dst (d + pos + 1) l) d str pos
              (after_label l 0 rest str pos s)
          ∙ ap (λ (n : ℕ). some (n, e)) size;
      written =
          append-Starts e (d + pos) (length l ∷ l) (0 ∷ [])
            (Starts-congr m e (d + pos) (length l ∷ l) (λ b p q. ground (arith, q))
              (labelled-Starts dst (d + pos) l h))
            (ground arith, tt);
      before = λ b p. ground (arith, p) ∙ labelled_before dst (d + pos) l b p;
    }

tail_label :
    (l : List ℕ) (c : ℕ) (rest : List ℕ) (str : Memory) (pos : ℕ)
    → Starts str pos (l ++ c ∷ rest)
    → Starts str (pos + length l + 1) rest
unfolding Starts
tail_label l c rest str pos s = (Starts-append str pos l (c ∷ rest) s).1.1

encode_name-more :
    (l w rest : List ℕ) (fuel : ℕ) (dst : Memory) (d : ℕ) (str : Memory) (pos : ℕ)
    → Label l
    → Starts str pos (l ++ 46 ∷ rest)
    → Encoded
        (encode_name fuel (labelled dst (d + pos) l) d str (pos + length l + 1) 0)
        (labelled dst (d + pos) l)
        d
        (pos + length l + 1)
        w
    → Encoded (encode_name (length l + suc fuel) dst d str pos 0) dst d pos (length l ∷ (l ++ w))
unfolding labelled
encode_name-more l w rest fuel dst d str pos (z, h, a) s r =
    let m : Memory = labelled dst (d + pos) l in
    let size : pos + length l + 1 + length w ≡ pos + suc (length (l ++ w)) =
      omega (arith, length-append l w) in
    let place : d + (pos + length l + 1) ≡ d + pos + suc (length l) = omega arith in
    record {
      end = r.end;
      result =
          encode_name-whole l (46 ∷ rest) (suc fuel) dst d str pos a s
          ∙ encode_dot (length l) fuel (write dst (d + pos + 1) l) d str pos
              (after_label l 46 rest str pos s)
          ∙ r.result
          ∙ ap (λ (n : ℕ). some (n, r.end)) size;
      written =
          append-Starts r.end (d + pos) (length l ∷ l) w
            (Starts-congr m r.end (d + pos) (length l ∷ l) (λ b p q. r.before b (omega (arith, q)))
              (labelled-Starts dst (d + pos) l h))
            (rw place at r.written);
      before = λ b p. r.before b (omega (arith, p)) ∙ labelled_before dst (d + pos) l b p;
    }

pub encode_name-wire :
    (l : List ℕ) (ls : List (List ℕ)) (rest : List ℕ) (fuel : ℕ) (dst : Memory) (d : ℕ)
    (str : Memory) (pos : ℕ)
    → All Label (l ∷ ls)
    → length (dots l ls) < fuel
    → Starts str pos (dots l ls ++ 0 ∷ rest)
    → Encoded (encode_name fuel dst d str pos 0) dst d pos (wire (l ∷ ls))
unfolding dots wire
encode_name-wire l [] rest fuel dst d str pos (a, _) h s =
    let f : fuel ≡ length l + suc (fuel - length l - 1) = omega (arith, h) in
    rw f (encode_name-last l rest (fuel - length l - 1) dst d str pos a s)
encode_name-wire l (k ∷ ls) rest fuel dst d str pos (a, more) h s =
    let left : ℕ = fuel - length l - 1 in
    let size : length (l ++ 46 ∷ dots k ls) ≡ length l + suc (length (dots k ls)) =
      length-append l (46 ∷ dots k ls) in
    let f : fuel ≡ length l + suc left = omega (arith, h, size) in
    let t = append_assoc l (46 ∷ dots k ls) (0 ∷ rest) in
    let s1 = subst (Starts str pos) t s in
    let s2 = tail_label l 46 (dots k ls ++ 0 ∷ rest) str pos s1 in
    rw f (
      encode_name-more l (wire (k ∷ ls)) (dots k ls ++ 0 ∷ rest) left dst d str pos a s1 (
        encode_name-wire k ls rest left (labelled dst (d + pos) l) d str (pos + length l + 1) more
          (omega (arith, h, size)) s2))
