-- ===== src/Common/Int.antt =====
-- Signed numbers over the native naturals.
use Prim.Native.Nat.{ℕ, ◌+◌, ◌-◌, ◌%◌, ◌^◌}
use acep_reja_mcsos.Common.Tests.{ltb, if◌then◌else◌}

-- `negsuc n` is -(n + 1).
pub data ℤ : Type 0 where
  pos : ℕ → ℤ
  negsuc : ℕ → ℤ

-- A natural number and a signed one.
abbrev pub add_signed : ℕ → ℤ → ℤ
add_signed a (pos b) = pos (a + b)
add_signed a (negsuc b) = if ltb b a then pos (a - b - 1) else negsuc (b - a)

-- The cast of an unsigned number to a signed one of 32 bits, and of 64 bits.
abbrev pub to_int32 : ℕ → ℤ
to_int32 n =
    if ltb (n % 2 ^ 32) (2 ^ 31) then pos (n % 2 ^ 32) else negsuc (2 ^ 32 - 1 - n % 2 ^ 32)

abbrev pub to_int64 : ℕ → ℤ
to_int64 n =
    if ltb (n % 2 ^ 64) (2 ^ 63) then pos (n % 2 ^ 64) else negsuc (2 ^ 64 - 1 - n % 2 ^ 64)
