-- ===== src/Prelude/Words.antt =====
-- C's unsigned words as native numbers: every operation keeps its wrap-around.
use Prim.Native.Nat.{ℕ, ◌+◌, ◌-◌, ◌*◌, ◌/◌, ◌%◌, ◌^◌, ◌<◌}
use mathlib.Core.Path.{◌≡◌}
use mathlib.Core.Bool.{Bool}
use adapto_lite.Prelude.Tests.{◌==◌}
use native.Mathlib.Omega.{arith}

-- `x++` and `x--` of a uint32_t, and the sum and difference of two.
abbrev pub inc32 : ℕ → ℕ
inc32 x = (x + 1) % 2 ^ 32

abbrev pub dec32 : ℕ → ℕ
dec32 x = (x + 2 ^ 32 - 1) % 2 ^ 32

abbrev pub add32 : ℕ → ℕ → ℕ
add32 x y = (x + y) % 2 ^ 32

abbrev pub sub32 : ℕ → ℕ → ℕ
sub32 x y = (x + 2 ^ 32 - y) % 2 ^ 32

-- Truncation to uint8_t and uint16_t.
abbrev pub u8 : ℕ → ℕ
u8 x = x % 2 ^ 8

abbrev pub u16 : ℕ → ℕ
u16 x = x % 2 ^ 16

-- `htons` of a little-endian processor.
abbrev pub htons : ℕ → ℕ
htons x = x % 256 * 256 + x / 256 % 256

pub htons-htons : (x : ℕ) → x < 65536 → htons (htons x) ≡ x
htons-htons x h = omega arith

-- `x & (2^k - 1)`, and whether bit `k` of `x` is set.
abbrev pub low_bits : ℕ → ℕ → ℕ
low_bits x k = x % 2 ^ k

abbrev pub has_bit : ℕ → ℕ → Bool
has_bit x k = x / 2 ^ k % 2 == 1
