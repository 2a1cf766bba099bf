-- ===== src/Prelude/Bytes.antt =====
-- Byte memory, as a function from addresses to bytes, with the copies that `memcpy` makes.
use Prim.Native.Nat.{ℕ, zero, suc, ◌+◌, ◌-◌, ◌*◌, ◌/◌, ◌%◌, ◌<◌, ◌≤◌}
use mathlib.Core.Path.{◌≡◌, refl, ap, ap₂, ◌∙◌}
use mathlib.Core.List.{List, [], ◌∷◌, ◌++◌}
use native.Mathlib.Omega.{arith}
use adapto_lite.Prelude.Tests.{◌==◌, if◌then◌else◌}
use adapto_lite.Prelude.Lists.{length, take, drop}

-- A map with one entry replaced.
abbrev pub update {ℓ} : {A : Type ℓ} → (ℕ → A) → ℕ → A → ℕ → A
update f p v q = if p == q then v else f q

abbrev pub Memory : Type 0
Memory = ℕ → ℕ

-- A `uint16_t` and a `uint32_t` of a little-endian processor, and their bytes.
abbrev pub get16 : Memory → ℕ → ℕ
get16 m a = m a + m (a + 1) * 256

abbrev pub get32 : Memory → ℕ → ℕ
get32 m a = get16 m a + get16 m (a + 2) * 65536

abbrev pub bytes16 : ℕ → List ℕ
bytes16 x = x % 256 ∷ x / 256 ∷ []

abbrev pub bytes32 : ℕ → List ℕ
bytes32 x = x % 256 ∷ x / 256 % 256 ∷ x / 65536 % 256 ∷ x / 16777216 ∷ []

-- `memcpy(a, xs, |xs|)`
unfoldable pub write : Memory → ℕ → List ℕ → Memory
write m a [] = m
write m a (x ∷ xs) = write (update m a x) (a + 1) xs

-- The `n` bytes from `a` on.
unfoldable pub read : Memory → ℕ → ℕ → List ℕ
read m a zero = []
read m a (suc n) = m a ∷ read m (a + 1) n

pub length-read : (m : Memory) (a n : ℕ) → length (read m a n) ≡ n
unfolding read
length-read m a zero = refl
length-read m a (suc n) = ap suc (length-read m (a + 1) n)

pub write_below : (m : Memory) (a : ℕ) (xs : List ℕ) (b : ℕ) → b < a → write m a xs b ≡ m b
unfolding write
write_below m a [] b h = refl
write_below m a (x ∷ xs) b h = ground (arith, write_below (update m a x) (a + 1) xs b (omega arith))

pub write_above :
    (m : Memory) (a : ℕ) (xs : List ℕ) (b : ℕ) → a + length xs ≤ b → write m a xs b ≡ m b
unfolding write
write_above m a [] b h = refl
write_above m a (x ∷ xs) b h = ground (arith, write_above (update m a x) (a + 1) xs b (omega arith))

-- What was written is read back.
pub read-write : (m : Memory) (a : ℕ) (xs : List ℕ) → read (write m a xs) a (length xs) ≡ xs
unfolding read write
read-write m a [] = refl
read-write m a (x ∷ xs) = ground (
  arith,
  write_below (update m a x) (a + 1) xs a (omega arith),
  read-write (update m a x) (a + 1) xs,
)

-- A read depends only on the bytes of its range.
pub read_congr :
    (m k : Memory) (a n : ℕ) → ((b : ℕ) → a ≤ b → b < a + n → m b ≡ k b) → read m a n ≡ read k a n
unfolding read
read_congr m k a zero h = refl
read_congr m k a (suc n) h =
    ap₂ ◌∷◌ (h a (omega arith) (omega arith))
      (read_congr m k (a + 1) n (λ b p q. h b (omega arith) (omega arith)))

pub read-append : (m : Memory) (a i j : ℕ) → read m a (i + j) ≡ read m a i ++ read m (a + i) j
unfolding read
read-append m a zero j = ground arith
read-append m a (suc i) j =
    let e : suc i + j ≡ suc (i + j) = omega arith in
    let k : a + suc i ≡ a + 1 + i = omega arith in
    rw (e, k) (ap (λ l. m a ∷ l) (read-append m (a + 1) i j))

pub take-read : (m : Memory) (a i n : ℕ) → i ≤ n → take i (read m a n) ≡ read m a i
unfolding read
take-read m a zero n h = refl
take-read m a (suc i) zero h = absurd (omega arith)
take-read m a (suc i) (suc n) h = ap (λ l. m a ∷ l) (take-read m (a + 1) i n (omega arith))

pub drop-read : (m : Memory) (a i n : ℕ) → i ≤ n → drop i (read m a n) ≡ read m (a + i) (n - i)
unfolding read
drop-read m a zero n h =
    let e : a + 0 ≡ a = omega arith in let k : n - 0 ≡ n = omega arith in rw (e, k) refl
drop-read m a (suc i) zero h = absurd (omega arith)
drop-read m a (suc i) (suc n) h =
    let e : a + suc i ≡ a + 1 + i = omega arith in
    let k : suc n - suc i ≡ n - i = omega arith in rw (e, k) (drop-read m (a + 1) i n (omega arith))

-- A read of what was written with bytes before it: the old bytes and then the new ones.
pub read-write-append :
    (m : Memory) (a n : ℕ) (xs : List ℕ)
    → read (write m (a + n) xs) a (n + length xs) ≡ read m a n ++ xs
read-write-append m a n xs =
    let k = write m (a + n) xs in
    read-append k a n (length xs)
    ∙ ap₂ ◌++◌ (read_congr k m a n (λ b p q. write_below m (a + n) xs b q))
        (read-write m (a + n) xs)

pub write-append :
    (m : Memory) (a : ℕ) (xs ys : List ℕ)
    → write m a (xs ++ ys) ≡ write (write m a xs) (a + length xs) ys
unfolding write
write-append m a [] ys = let e : a + 0 ≡ a = omega arith in rw e refl
write-append m a (x ∷ xs) ys =
    let p : a + suc (length xs) ≡ a + 1 + length xs = omega arith in
    rw p (write-append (update m a x) (a + 1) xs ys)
