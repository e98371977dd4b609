-- ===== src/Boot/Integers.antt =====
-- The signed integers of boot/: an int64 of boot/grpc_web.go, and the int32 that
-- boot/error/grpc_error_wrap.go makes of a code.
use Prim.Native.Nat.{◌%◌, ◌^◌}
use rk_grpc.Prelude.{ℕ, ◌-◌, ltb, if◌then◌else◌}

-- `negsuc n` is -(n + 1).
pub data ℤ : Type 0 where
  pos : ℕ → ℤ
  negsuc : ℕ → ℤ

-- The int64 with the bits of a number.
unfoldable pub to_int64 : ℕ → ℤ
to_int64 n =
    let bits = n % 2 ^ 64 in if ltb bits (2 ^ 63) then pos bits else negsuc (2 ^ 64 - 1 - bits)

-- The int32 with the bits of a number.
unfoldable pub to_int32 : ℕ → ℤ
to_int32 n =
    let bits = n % 2 ^ 32 in if ltb bits (2 ^ 31) then pos bits else negsuc (2 ^ 32 - 1 - bits)
