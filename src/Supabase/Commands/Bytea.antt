-- ===== src/Supabase/Commands/Bytea.antt =====
-- A public key as PostgreSQL reads it.
use proxmoxvue_agent.Base.{
  ℕ, ◌+◌, ◌-◌, ◌*◌, ◌/◌, ◌%◌, ◌<◌, ◌≡◌, refl, ◌&&◌, Option, none, some, [], ◌∷◌, arith, leb, ◌==◌,
  if◌then◌else◌, All, Bytes,
}
use proxmoxvue_agent.Supabase.Commands.{hex_digit, hex_digits, bytes_to_bytea}
use proxmoxvue_agent.Base64.RoundTrip.{IsByte}

-- The value of a lower case hexadecimal digit.
abbrev pub hex_value : ℕ → Option ℕ
hex_value c =
    if leb b'0' c && leb c b'9'
    then some (c - b'0')
    else if leb b'a' c && leb c b'f'
    then some (c - b'a' + 10)
    else none

-- The byte of two digits in front of the others.
abbrev pub paired : Option ℕ → Option ℕ → Option Bytes → Option Bytes
paired (some high) (some low) (some rest) = some ((high * 16 + low) ∷ rest)
paired high low rest = none

abbrev pub read_hex : Bytes → Option Bytes
read_hex [] = some []
read_hex (c ∷ []) = none
read_hex (c ∷ d ∷ s) = paired (hex_value c) (hex_value d) (read_hex s)

-- The hex format of bytea: a backslash, an x, and two digits for each byte.
abbrev pub read_bytea : Bytes → Option Bytes
read_bytea (c ∷ d ∷ s) = if c == b'\\' && d == b'x' then read_hex s else none
read_bytea other = none

hex_value-hex_digit : (n : ℕ) → n < 16 → hex_value (hex_digit n) ≡ some n
unfolding hex_digit
hex_value-hex_digit n h = ground arith

joins : (v : ℕ) → v / 16 * 16 + v % 16 ≡ v
joins v = omega arith

read_hex-hex_digits : (b : Bytes) → All IsByte b → read_hex (hex_digits b) ≡ some b
unfolding hex_digits
read_hex-hex_digits [] h = refl
read_hex-hex_digits (v ∷ rest) (small, hs) =
    rw
      (
        hex_value-hex_digit (v / 16) (omega (arith, small)),
        hex_value-hex_digit (v % 16) (omega arith),
        read_hex-hex_digits rest hs,
        joins v,
      )
      refl

-- What the agent uploads as a public key, the database reads as the same bytes: the hex format of
-- bytea is read back to what bytesToBytea was given.
pub read_bytea-bytes_to_bytea : (b : Bytes) → All IsByte b → read_bytea (bytes_to_bytea b) ≡ some b
unfolding bytes_to_bytea
read_bytea-bytes_to_bytea b h = read_hex-hex_digits b h
