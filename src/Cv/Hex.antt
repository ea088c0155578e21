-- ===== src/Cv/Hex.antt =====
-- Bytes as two hexadecimal digits.
use cligen.Prelude.{
  ℕ, ◌+◌, ◌-◌, ◌/◌, ◌%◌, ◌<◌, ◌≡◌, arith, ◌&&◌, Option, none, some, [], ◌∷◌, leb, ltb,
  if◌then◌else◌,
}
use cligen.Memory.{Bytes}

-- `toint`, with `none` for -1.
unfoldable pub toint : ℕ → Option ℕ
toint c =
    if leb b'0' c && leb c b'9'
    then some (c - b'0')
    else if leb b'A' c && leb c b'F'
    then some (10 + c - b'A')
    else if leb b'a' c && leb c b'f'
    then some (10 + c - b'a')
    else none

-- A digit of the conversion `%02x`.
pub hex_digit : ℕ → ℕ
hex_digit d = if ltb d 10 then b'0' + d else b'a' + d - 10

-- `%02x` of each byte.
unfoldable pub hex : Bytes → Bytes
hex [] = []
hex (u ∷ us) = hex_digit (u % 256 / 16) ∷ hex_digit (u % 16) ∷ hex us

abbrev pub AllBytes : Bytes → Type 0
AllBytes [] = Unit
AllBytes (u ∷ us) = (u < 256) × AllBytes us

pub toint-hex_digit : (d : ℕ) → d < 16 → toint (hex_digit d) ≡ some d
unfolding toint hex_digit
toint-hex_digit d h = ground arith

-- tolower(3)
abbrev pub lower : ℕ → ℕ
lower c = if leb b'A' c && leb c b'Z' then c + 32 else c

-- A digit that is read is printed in lower case.
pub hex_digit-toint : (c d : ℕ) → toint c ≡ some d → (hex_digit d ≡ lower c) × (d < 16)
unfolding toint hex_digit
hex_digit-toint c d h = ground arith
