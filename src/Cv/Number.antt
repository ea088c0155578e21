-- ===== src/Cv/Number.antt =====
-- The integer parsers of cligen_cv.c, with strtoll(3) and strtoull(3), and how integers are printed.
pub mod Show
mod Range
mod Tests
use cligen.Prelude.{
  ℕ, zero, suc, ◌+◌, ◌-◌, ◌*◌, ◌/◌, ◌%◌, ◌^◌, Bool, true, false, ◌&&◌, ◌||◌, not, Option, none,
  some, List, [], ◌∷◌, ◌++◌, ◌==◌, ltb, leb, length, drop, get_or, if◌then◌else◌,
}
use cligen.Memory.{Bytes}
use cligen.Cv.{Parsed, parsed, invalid, error, ◌>>=◌}

pub data ℤ : Type 0 where
  pos : ℕ → ℤ
  negsuc : ℕ → ℤ

abbrev pub negative : ℕ → ℤ
negative zero = pos zero
negative (suc n) = negsuc n

-- `<` of int64_t.
abbrev pub lt_int : ℤ → ℤ → Bool
lt_int (pos a) (pos b) = ltb a b
lt_int (pos a) (negsuc b) = false
lt_int (negsuc a) (pos b) = true
lt_int (negsuc a) (negsuc b) = ltb b a

-- The value of a digit, which may be a letter, if it is less than the base.
unfoldable pub digit : ℕ → ℕ → Option ℕ
digit base c =
    let below = λ (d : ℕ). if ltb d base then some d else none in
    if leb b'0' c && leb c b'9'
    then below (c - b'0')
    else if leb b'a' c && leb c b'z'
    then below (10 + c - b'a')
    else if leb b'A' c && leb c b'Z'
    then below (10 + c - b'A')
    else none

abbrev pub is_digit : ℕ → ℕ → Bool
is_digit base c = elim (digit base c) [ none ↦ false | some d ↦ true ]

-- isspace(3)
abbrev pub is_space : ℕ → Bool
is_space c = c == b' ' || (leb 9 c && leb c 13)

unfoldable pub skip_space : Bytes → Bytes
skip_space [] = []
skip_space (c ∷ s) = if is_space c then skip_space s else c ∷ s

abbrev pub sign : Bytes → Bool × Bytes
sign [] = (false, [])
sign (c ∷ s) = if c == b'-' then (true, s) else if c == b'+' then (false, s) else (false, c ∷ s)

-- "0x" with a hexadecimal digit behind it.
abbrev is_0x : Bytes → Bool
is_0x s =
    get_or s 0 0 == b'0'
    && ((get_or s 1 0 == b'x' || get_or s 1 0 == b'X') && is_digit 16 (get_or s 2 0))

-- The base that is meant, and the digits.
unfoldable pub prefix : ℕ → Bytes → ℕ × Bytes
prefix base s =
    if (base == 0 || base == 16) && is_0x s
    then (16, drop 2 s)
    else if base == 0
    then (if get_or s 0 0 == b'0' then (8, s) else (10, s))
    else (base, s)

-- The number that the digits make, behind those that made `n`, and what follows them.
unfoldable pub scan : ℕ → ℕ → Bytes → ℕ × Bytes
scan base n [] = (n, [])
scan base n (c ∷ s) = elim (digit base c) [
  | none ↦ (n, c ∷ s)
  | some d ↦ scan base (n * base + d) s
]

-- What strtoll(3) and strtoull(3) find in a string: whether there is a minus, the number, and what
-- `ep` points to; `none` where there is no digit, and `ep` is the string.
pub record Found : Type 0 where
  pub minus : Bool
  pub number : ℕ
  pub ep : Bytes

unfoldable pub find_number : ℕ → Bytes → Option Found
find_number base str =
    let (minus, s) = sign (skip_space str) in
    let (base', s') = prefix base s in
    let (n, rest) = scan base' 0 s' in
    if is_digit base' (get_or s' 0 0)
    then some (record { minus = minus; number = n; ep = rest })
    else none

abbrev pub int64_limit : ℕ
int64_limit = 9223372036854775808

abbrev pub int64_min : ℤ
int64_min = negsuc 9223372036854775807

abbrev pub int64_max : ℤ
int64_max = pos 9223372036854775807

abbrev pub uint64_max : ℕ
uint64_max = 18446744073709551615

-- The tests of `parse_int64_base` behind strtoll(3), which sets ERANGE for a number that is too
-- large. The other errors of strtoll(3) are for bases that cligen does not use.
unfoldable pub int_in_range : ℤ → ℤ → Found → Parsed ℤ
int_in_range imin imax f =
    let i = if f.minus then negative f.number else pos f.number in
    if not (length f.ep == 0)
    then invalid
    else if ltb (if f.minus then int64_limit else int64_limit - 1) f.number
    then invalid
    else if lt_int i imin || lt_int imax i
    then invalid
    else parsed i

-- A string without a number is refused, an empty one too, since `ep` is then the string.
unfoldable pub parse_int64_base : Bytes → ℕ → ℤ → ℤ → Parsed ℤ
parse_int64_base str base imin imax = elim (find_number base str) [
  | none ↦ invalid
  | some f ↦ int_in_range imin imax f
]

-- The cast to an integer of `half * 2` values.
abbrev pub cast_int : ℕ → ℤ → ℤ
cast_int half (pos n) =
    if ltb (n % (half + half)) half
    then pos (n % (half + half))
    else negsuc (half + half - 1 - n % (half + half))
cast_int half (negsuc n) =
    if ltb (n % (half + half)) half
    then negsuc (n % (half + half))
    else pos (half + half - 1 - n % (half + half))

pub parse_int8 : Bytes → Parsed ℤ
parse_int8 str = parse_int64_base str 0 (negsuc 127) (pos 127) >>= λ i. parsed (cast_int 128 i)

pub parse_int16 : Bytes → Parsed ℤ
parse_int16 str =
    parse_int64_base str 0 (negsuc 32767) (pos 32767) >>= λ i. parsed (cast_int 32768 i)

pub parse_int32 : Bytes → Parsed ℤ
parse_int32 str = parse_int64_base str 0 (negsuc 2147483647) (pos 2147483647) >>= λ i.
    parsed (cast_int 2147483648 i)

pub parse_int64 : Bytes → Parsed ℤ
parse_int64 str = parse_int64_base str 0 int64_min int64_max

abbrev pub has : ℕ → Bytes → Bool
has c [] = false
has c (x ∷ s) = x == c || has c s

-- The tests of `parse_uint64_base` behind strtoull(3), which gives the negative of a number with a
-- minus, modulo 2 ^ 64.
pub uint_in_range : Bytes → ℕ → Found → Parsed ℕ
uint_in_range str umax f =
    let i =
      if f.minus then (18446744073709551616 - f.number) % 18446744073709551616 else f.number in
    if not (length f.ep == 0)
    then invalid
    else if ltb uint64_max f.number
    then invalid
    else if ltb umax i
    then invalid
    else if has b'-' str
    then invalid
    else parsed i

pub parse_uint64_base : Bytes → ℕ → ℕ → Parsed ℕ
parse_uint64_base str base umax = elim (find_number base str) [
  | none ↦ invalid
  | some f ↦ uint_in_range str umax f
]

pub parse_uint8 : Bytes → Parsed ℕ
parse_uint8 str = parse_uint64_base str 0 255 >>= λ i. parsed (i % 256)

pub parse_uint16 : Bytes → Parsed ℕ
parse_uint16 str = parse_uint64_base str 0 65535 >>= λ i. parsed (i % 65536)

pub parse_uint32 : Bytes → Parsed ℕ
parse_uint32 str = parse_uint64_base str 0 4294967295 >>= λ i. parsed (i % 4294967296)

pub parse_uint64 : Bytes → Parsed ℕ
parse_uint64 str = parse_uint64_base str 0 uint64_max

-- The decimal digits of `%u`; one round for each digit is enough fuel.
unfoldable pub digits : ℕ → ℕ → Bytes
digits zero n = []
digits (suc fuel) n =
    let front = digits fuel (n / 10) in
    if ltb n 10 then (b'0' + n) ∷ [] else front ++ ((b'0' + n % 10) ∷ [])

-- The formats `%u` and `%d` of `cv2cbuf`.
unfoldable pub print_nat : ℕ → Bytes
print_nat n = digits (suc n) n

pub print_int : ℤ → Bytes
print_int (pos n) = print_nat n
print_int (negsuc n) = b'-' ∷ print_nat (n + 1)
