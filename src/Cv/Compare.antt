-- ===== src/Cv/Compare.antt =====
-- The integers of a variable: their setters, getters and comparison in cligen_cv.c. The first eight
-- bytes of the union are one word, as a little-endian machine stores them.
mod Word
mod Order
mod Tests
use cligen.Prelude.{
  ℕ, zero, suc, ◌+◌, ◌-◌, ◌*◌, ◌/◌, ◌%◌, Bool, true, false, ◌&&◌, Option, none, some, ◌==◌, ltb,
  if◌then◌else◌,
}
use cligen.Cv.Number.{ℤ, pos, negsuc, lt_int}

-- `enum cv_type`
pub data CvType : Type 0 where
  err int8 int16 int32 int64 uint8 uint16 uint32 uint64 dec64 bool rest string interface ipv4addr
        ipv4pfx ipv6addr ipv6pfx macaddr url uuid time void empty :
      CvType

-- `cv_isint` and `cv_isstring`
abbrev pub is_int : CvType → Bool
is_int int8 = true
is_int int16 = true
is_int int32 = true
is_int int64 = true
is_int uint8 = true
is_int uint16 = true
is_int uint32 = true
is_int uint64 = true
is_int _ = false

abbrev pub is_string : CvType → Bool
is_string string = true
is_string rest = true
is_string interface = true
is_string _ = false

pub record Var : Type 0 where
  pub var_type : CvType
  pub word : ℕ

-- The bits of an integer in a type of `size` values, and the integer of such bits.
abbrev pub bits : ℕ → ℤ → ℕ
bits size (pos n) = n % size
bits size (negsuc n) = size - 1 - n % size

abbrev pub signed : ℕ → ℕ → ℤ
signed half b = if ltb b half then pos b else negsuc (half + half - 1 - b)

-- A write of the low bytes, and a read of them. The setters and getters are given a `cv` that is not
-- null; what a setter returns is left out.
abbrev pub put_low : ℕ → Var → ℕ → Var
put_low size cv b = record cv { word = cv.word / size * size + b }

abbrev pub low : ℕ → Var → ℕ
low size cv = cv.word % size

pub int8_get : Var → ℤ
int8_get cv = signed 128 (low 256 cv)

pub int8_set : Var → ℤ → Var
int8_set cv x = put_low 256 cv (bits 256 x)

pub int16_get : Var → ℤ
int16_get cv = signed 32768 (low 65536 cv)

pub int16_set : Var → ℤ → Var
int16_set cv x = put_low 65536 cv (bits 65536 x)

pub int32_get : Var → ℤ
int32_get cv = signed 2147483648 (low 4294967296 cv)

pub int32_set : Var → ℤ → Var
int32_set cv x = put_low 4294967296 cv (bits 4294967296 x)

pub int64_get : Var → ℤ
int64_get cv = signed 9223372036854775808 (low 18446744073709551616 cv)

pub int64_set : Var → ℤ → Var
int64_set cv x = put_low 18446744073709551616 cv (bits 18446744073709551616 x)

pub uint8_get : Var → ℕ
uint8_get cv = low 256 cv

pub uint8_set : Var → ℕ → Var
uint8_set cv x = put_low 256 cv (x % 256)

pub uint16_get : Var → ℕ
uint16_get cv = low 65536 cv

pub uint16_set : Var → ℕ → Var
uint16_set cv x = put_low 65536 cv (x % 65536)

pub uint32_get : Var → ℕ
uint32_get cv = low 4294967296 cv

pub uint32_set : Var → ℕ → Var
uint32_set cv x = put_low 4294967296 cv (x % 4294967296)

pub uint64_get : Var → ℕ
uint64_get cv = low 18446744073709551616 cv

pub uint64_set : Var → ℕ → Var
uint64_set cv x = put_low 18446744073709551616 cv (x % 18446744073709551616)

-- `cv_cmp_int64_uint64`. The cast keeps the bits.
pub cmp_int64_uint64 : ℤ → ℕ → ℤ
cmp_int64_uint64 i64 u64 =
    let u = bits 18446744073709551616 i64 in
    if lt_int i64 (pos 0)
    then negsuc 0
    else if ltb u u64
    then negsuc 0
    else if ltb u64 u
    then pos 1
    else pos 0

-- `retval`, `*i64` and `*u64` in `cv_to_int64`; a variable that is not set is `none`.
pub record Typecast : Type 0 where
  pub retval : ℤ
  pub i64 : Option ℤ
  pub u64 : Option ℕ

-- The labels of the switch from the last to the first. No case has a `break`, so each goes on with
-- the one below it.
abbrev case_uint64 : Var → Typecast → Typecast
case_uint64 cv r = record r { retval = pos 0; u64 = some (low 18446744073709551616 cv) }

abbrev case_uint32 : Var → Typecast → Typecast
case_uint32 cv r = case_uint64 cv (record r { retval = pos 0; u64 = some (low 4294967296 cv) })

abbrev case_uint16 : Var → Typecast → Typecast
case_uint16 cv r = case_uint32 cv (record r { retval = pos 0; u64 = some (low 65536 cv) })

abbrev case_uint8 : Var → Typecast → Typecast
case_uint8 cv r = case_uint16 cv (record r { retval = pos 0; u64 = some (low 256 cv) })

abbrev case_int64 : Var → Typecast → Typecast
case_int64 cv r = case_uint8 cv (record r {
  retval = pos 1;
  i64 = some (signed 9223372036854775808 (low 18446744073709551616 cv));
})

abbrev case_int32 : Var → Typecast → Typecast
case_int32 cv r =
    case_int64 cv (record r { retval = pos 1; i64 = some (signed 2147483648 (low 4294967296 cv)) })

abbrev case_int16 : Var → Typecast → Typecast
case_int16 cv r =
    case_int32 cv (record r { retval = pos 1; i64 = some (signed 32768 (low 65536 cv)) })

abbrev case_int8 : Var → Typecast → Typecast
case_int8 cv r = case_int16 cv (record r { retval = pos 1; i64 = some (signed 128 (low 256 cv)) })

-- The switch of `cv_to_int64`.
abbrev pub switch : CvType → Var → Typecast → Typecast
switch int8 cv r = case_int8 cv r
switch int16 cv r = case_int16 cv r
switch int32 cv r = case_int32 cv r
switch int64 cv r = case_int64 cv r
switch uint8 cv r = case_uint8 cv r
switch uint16 cv r = case_uint16 cv r
switch uint32 cv r = case_uint32 cv r
switch uint64 cv r = case_uint64 cv r
switch _ cv r = r

abbrev pub start : Typecast
start = record { retval = negsuc 0; i64 = none; u64 = none }

pub to_int64 : Var → Typecast
to_int64 cv = switch cv.var_type cv start

-- `-x` of an int.
abbrev opposite : ℤ → ℤ
opposite (pos zero) = pos 0
opposite (pos (suc n)) = negsuc n
opposite (negsuc n) = pos (n + 1)

abbrev pub order_int : ℤ → ℤ → ℤ
order_int a b = if lt_int a b then negsuc 0 else if lt_int b a then pos 1 else pos 0

abbrev pub order_nat : ℕ → ℕ → ℤ
order_nat a b = if ltb a b then negsuc 0 else if ltb b a then pos 1 else pos 0

abbrev with_both {ℓ κ} : {A : Type ℓ} {B : Type κ} → Option A → Option B → (A → B → ℤ) → Option ℤ
with_both none b f = none
with_both (some a) none f = none
with_both (some a) (some b) f = some (f a b)

-- `ret > 0` and `ret == 0`.
abbrev is_signed : Typecast → Bool
is_signed r = lt_int (pos 0) r.retval

abbrev is_zero : ℤ → Bool
is_zero (pos zero) = true
is_zero (pos (suc n)) = false
is_zero (negsuc n) = false

abbrev is_unsigned : Typecast → Bool
is_unsigned r = is_zero r.retval

-- The branches of `cv_cmp_ints`; a read of a variable that is not set is `none`.
abbrev compare_cast : Typecast → Typecast → Option ℤ
compare_cast r1 r2 =
    if is_signed r1 && is_signed r2
    then with_both r1.i64 r2.i64 order_int
    else if is_unsigned r1 && is_unsigned r2
    then with_both r1.u64 r2.u64 order_nat
    else if is_signed r1 && is_unsigned r2
    then with_both r1.i64 r2.u64 cmp_int64_uint64
    else if is_unsigned r1 && is_signed r2
    then with_both r2.i64 r1.u64 (λ a b. opposite (cmp_int64_uint64 a b))
    else some (pos 0)

-- `cv_cmp_ints`
pub cmp_ints : Var → Var → Option ℤ
cmp_ints cv1 cv2 =
    let r1 = to_int64 cv1 in
    let r2 = to_int64 cv2 in
    if lt_int r1.retval (pos 0)
    then some (negsuc 0)
    else if lt_int r2.retval (pos 0)
    then some (negsuc 0)
    else compare_cast r1 r2
