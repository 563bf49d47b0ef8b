-- ===== src/Base/Int.antt =====
-- Signed integers (`int`, 64 bits) over the native numbers, under the library's names.
use Prim.Native.Nat.{ℕ, suc, ◌-◌, ◌%◌, ◌^◌, ◌<◌}
use Prim.Native.String.{String}
use mathlib.Core.Path.{◌≡◌}
use native.Mathlib.Omega.{arith}
use db2rest_bridge.Base.Tests.{ltb, if◌then◌else◌}
use db2rest_bridge.Base.Text.{show_nat, ◌<>◌}

-- `negsuc n` is -(n + 1).
pub data ℤ : Type 0 where
  pos : ℕ → ℤ
  negsuc : ℕ → ℤ

-- `%d` and `strconv.Itoa`
unfoldable pub show_int : ℤ → String
unfolding show_nat
show_int (pos n) = show_nat n
show_int (negsuc n) = "-" <> show_nat (suc n)

abbrev pub u64_mod : ℕ
u64_mod = 2 ^ 64

abbrev pub int_max : ℕ
int_max = 2 ^ 63

-- `uint64(i)`
unfoldable pub uint64 : ℤ → ℕ
uint64 (pos n) = n % u64_mod
uint64 (negsuc n) = u64_mod - 1 - n % u64_mod

-- `int(u)`
unfoldable pub int_of : ℕ → ℤ
int_of u = let w = u % u64_mod in if ltb w int_max then pos w else negsuc (u64_mod - 1 - w)

-- A value that fits into `int`.
abbrev IsInt : ℤ → Type 0
IsInt (pos n) = n < int_max
IsInt (negsuc n) = n < int_max

-- A conversion to `uint64` and back gives the integer, negative ones included.
int_of-uint64 : (i : ℤ) → IsInt i → int_of (uint64 i) ≡ i
unfolding int_of uint64
int_of-uint64 (pos n) h = ground arith
int_of-uint64 (negsuc n) h = ground arith

pub uint64-int_of : (u : ℕ) → u < u64_mod → uint64 (int_of u) ≡ u
unfolding int_of uint64
uint64-int_of u h = ground arith
