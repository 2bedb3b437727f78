-- ===== src/Common/Words.antt =====
-- Arithmetic on size_t and uint64_t.
use Prim.Native.Nat.{ℕ, ◌+◌, ◌-◌, ◌%◌, ◌^◌, ◌<◌}
use mathlib.Core.Path.{◌≡◌}
use mathlib.Core.Bool.{Bool, ◌||◌}
use native.Mathlib.Omega.{arith}
use exhy.Common.Tests.{leb}

abbrev pub size_mod : ℕ
size_mod = 2 ^ 64

abbrev pub sub_size : ℕ → ℕ → ℕ
sub_size a b = (a + size_mod - b) % size_mod

abbrev pub add_size : ℕ → ℕ → ℕ
add_size a b = (a + b) % size_mod

-- ++n and --n.
abbrev pub up : ℕ → ℕ
up n = (n + 1) % size_mod

abbrev pub down : ℕ → ℕ
down n = (n + size_mod - 1) % size_mod

-- (int)size <= n, for a size_t and an int n that is not negative: the pattern of 32 bits is negative from 2 ^ 31 on.
unfoldable pub int_le : ℕ → ℕ → Bool
int_le size n = leb (2 ^ 31) (size % 2 ^ 32) || leb (size % 2 ^ 32) n

pub int_le_lem : (size n : ℕ) → size < 2 ^ 31 → int_le size n ≡ leb size n
unfolding int_le
int_le_lem size n h = let same : size % 2 ^ 32 ≡ size = omega arith in rw same (ground arith)
