-- ===== src/Cv/Compare/Word.antt =====
-- Setters and getters of integers.
use cligen.Prelude.{ℕ, ◌+◌, ◌-◌, ◌/◌, ◌%◌, ◌<◌, ◌≡◌, refl, ap, ◌∙◌, arith, ltb, if◌then◌else◌}
use native.Mathlib.Nat.{mod-eq_of_lt, mod-lt, mul-add-mod_self_right}
use cligen.Cv.Number.{ℤ, pos, negsuc, cast_int}
use cligen.Cv.Compare.{
  Var, bits, signed, low, put_low, int8_get, int8_set, int16_get, int16_set, int32_get, int32_set,
  int64_get, int64_set, uint8_get, uint8_set, uint16_get, uint16_set, uint32_get, uint32_set,
  uint64_get, uint64_set,
}

low-put_low : (size : ℕ) (cv : Var) (b : ℕ) → b < size → low size (put_low size cv b) ≡ b
low-put_low size cv b h = mul-add-mod_self_right (cv.word / size) size b ∙ mod-eq_of_lt h

bits_less : (size : ℕ) (x : ℤ) → 0 < size → bits size x < size
bits_less size (pos n) h = mod-lt n h
bits_less size (negsuc n) h = omega (arith, mod-lt n h)

signed-bits : (half : ℕ) (x : ℤ) → 0 < half → signed half (bits (half + half) x) ≡ cast_int half x
signed-bits half (pos n) h = refl
signed-bits half (negsuc n) h = flip (n % (half + half)) (mod-lt n (omega arith))
  where
    flip :
        (k : ℕ)
        → k < half + half
        → signed half (half + half - 1 - k)
          ≡ (if ltb k half then negsuc k else pos (half + half - 1 - k))
    flip k lt = ground arith

stored :
    (half : ℕ) (cv : Var) (x : ℤ)
    → 0 < half
    → signed half (low (half + half) (put_low (half + half) cv (bits (half + half) x)))
      ≡ cast_int half x
stored half cv x h =
    ap (signed half) (
      low-put_low (half + half) cv (bits (half + half) x) (bits_less (half + half) x (omega arith)))
    ∙ signed-bits half x h

-- The getters of the signed types return the integer that was set, cast to the type.
pub int_get-int_set :
    (cv : Var) (x : ℤ)
    → (int8_get (int8_set cv x) ≡ cast_int 128 x)
      × (int16_get (int16_set cv x) ≡ cast_int 32768 x)
      × (int32_get (int32_set cv x) ≡ cast_int 2147483648 x)
      × (int64_get (int64_set cv x) ≡ cast_int 9223372036854775808 x)
unfolding int8_get int8_set int16_get int16_set int32_get int32_set int64_get int64_set
int_get-int_set cv x = (
  stored 128 cv x (omega arith),
  stored 32768 cv x (omega arith),
  stored 2147483648 cv x (omega arith),
  stored 9223372036854775808 cv x (omega arith),
)

-- The getters of the unsigned types return the number that was set, modulo the size of the type.
pub uint_get-uint_set :
    (cv : Var) (x : ℕ)
    → (uint8_get (uint8_set cv x) ≡ x % 256)
      × (uint16_get (uint16_set cv x) ≡ x % 65536)
      × (uint32_get (uint32_set cv x) ≡ x % 4294967296)
      × (uint64_get (uint64_set cv x) ≡ x % 18446744073709551616)
unfolding uint8_get uint8_set uint16_get uint16_set uint32_get uint32_set uint64_get uint64_set
uint_get-uint_set cv x = (
  low-put_low 256 cv (x % 256) (omega arith),
  low-put_low 65536 cv (x % 65536) (omega arith),
  low-put_low 4294967296 cv (x % 4294967296) (omega arith),
  low-put_low 18446744073709551616 cv (x % 18446744073709551616) (omega arith),
)
