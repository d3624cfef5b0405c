-- ===== src/Base/Int.antt =====
-- Signed integers over the native numbers, under the library's names.
use Prim.Native.Nat.{ℕ, suc, ◌+◌, ◌-◌, ◌*◌, ◌%◌, ◌^◌}
use mathlib.Core.Path.{◌≡◌, refl}
use mathlib.Core.Bool.{Bool, true, false}
use mathlib.Core.List.{◌∷◌}
use proxmoxvue_agent.Base.Tests.{ltb, ◌==◌, if◌then◌else◌}
use proxmoxvue_agent.Base.Text.{Bytes, format_nat, codes}

-- `negsuc n` is -(n + 1).
pub data ℤ : Type 0 where
  pos : ℕ → ℤ
  negsuc : ℕ → ℤ

-- z == 0, z < 0, z <= 0
abbrev pub is_zero : ℤ → Bool
is_zero (pos n) = n == 0
is_zero (negsuc n) = false

abbrev pub is_negative : ℤ → Bool
is_negative (pos n) = false
is_negative (negsuc n) = true

abbrev pub is_positive : ℤ → Bool
is_positive (pos n) = ltb 0 n
is_positive (negsuc n) = false

abbrev pub int_eq : ℤ → ℤ → Bool
int_eq (pos a) (pos b) = a == b
int_eq (negsuc a) (negsuc b) = a == b
int_eq _ _ = false

-- `%d`
unfoldable pub format_int : ℤ → Bytes
unfolding format_nat
format_int (pos n) = format_nat n
format_int (negsuc n) = b'-' ∷ format_nat (suc n)

-- The value of a product of int64: the residue modulo 2^64 in two's complement.
unfoldable pub of_bits : ℕ → ℤ
of_bits n = let r = n % 2 ^ 64 in if ltb r (2 ^ 63) then pos r else negsuc (2 ^ 64 - 1 - r)

-- time.Duration(n) * unit, for a positive unit: an int64 product.
unfoldable pub scale : ℤ → ℕ → ℤ
unfolding of_bits
scale (pos n) unit = of_bits (n * unit)
scale (negsuc n) unit = of_bits (2 ^ 64 - suc n * unit % 2 ^ 64)

-- A time moved by a duration. Times are nanoseconds since Go's zero time.
unfoldable pub add_duration : ℕ → ℤ → ℕ
add_duration t (pos d) = t + d
add_duration t (negsuc d) = t - suc d

prints_negative : format_int (negsuc 4) ≡ codes "-5"
unfolding format_int
prints_negative = refl

scales : scale (negsuc 0) 1000 ≡ negsuc 999
unfolding scale
scales = refl
