-- ===== src/Base/Int.antt =====
-- Signed machine integers, `negsuc n` being -(n + 1), and their conversion to 64-bit unsigned ones.
use Prim.Native.Nat.{ℕ, ◌-◌, ◌%◌, ◌^◌}

pub data ℤ : Type 0 where
  pos : ℕ → ℤ
  negsuc : ℕ → ℤ

abbrev pub u64_mod : ℕ
u64_mod = 2 ^ 64

-- Go's `uint(n)` of an `int`, two's complement.
abbrev pub to_uint : ℤ → ℕ
to_uint (pos n) = n % u64_mod
to_uint (negsuc n) = u64_mod - 1 - n % u64_mod
