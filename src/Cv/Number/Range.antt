-- ===== src/Cv/Number/Range.antt =====
-- Printing an integer and parsing the text, with the bounds of each type.
use cligen.Prelude.{
  ℕ, suc, ◌+◌, ◌-◌, ◌%◌, ◌≤◌, ◌<◌, ◌≡◌, refl, ap, ◌∙◌, arith, Bool, true, false, ◌||◌, not, Option,
  none, some, [], ◌==◌, ltb, length, if◌then◌else◌, Bool-cases, inl, inr,
}
use cligen.Memory.{Bytes}
use native.Mathlib.Nat.{mod-eq_of_lt}
use cligen.Cv.{Parsed, parsed, invalid, ◌>>=◌}
use cligen.Cv.Number.{
  ℤ, pos, negsuc, negative, lt_int, Found, find_number, int_in_range, parse_int64_base, cast_int,
  parse_int8, parse_int16, parse_int32, parse_int64, has, uint_in_range, parse_uint64_base,
  parse_uint8, parse_uint16, parse_uint32, parse_uint64, print_nat, print_int, int64_limit,
  int64_min, int64_max, uint64_max,
}
use cligen.Cv.Number.Show.{find-print_nat, find-print_minus, has-print_nat}

-- The value where it is within the bounds.
abbrev within_int : ℤ → ℤ → ℤ → Parsed ℤ
within_int imin imax i = if lt_int i imin || lt_int imax i then invalid else parsed i

abbrev up_to : ℕ → ℕ → Parsed ℕ
up_to umax n = if ltb umax n then invalid else parsed n

-- A printed number is parsed again where the type has it, and refused where it is too large.
parse_uint64_base-print_nat :
    (n umax : ℕ) → umax ≤ uint64_max → parse_uint64_base (print_nat n) 0 umax ≡ up_to umax n
unfolding parse_uint64_base uint_in_range
parse_uint64_base-print_nat n umax h =
    ap (λ o. elim o [ none ↦ invalid | some f ↦ uint_in_range (print_nat n) umax f ])
      (find-print_nat n)
    ∙ rw (has-print_nat n) (tests n umax h)
  where
    tests :
        (n umax : ℕ)
        → umax ≤ uint64_max
        → (if ltb uint64_max n then invalid else if ltb umax n then invalid else parsed n)
          ≡ up_to umax n
    tests n umax h = ground arith

uint_in_range_minus :
    (str : Bytes) (umax : ℕ) (f : Found) → has b'-' str ≡ true → uint_in_range str umax f ≡ invalid
unfolding uint_in_range
uint_in_range_minus str umax f h =
    rw h (refused (not (length f.ep == 0)) (ltb uint64_max f.number) (ltb umax i))
  where
    i : ℕ
    i = if f.minus then (18446744073709551616 - f.number) % 18446744073709551616 else f.number

    refused :
        (t u v : Bool)
        → ◌≡◌ {A = Parsed ℕ}
            (if t then invalid else if u then invalid else if v then invalid else invalid)
            invalid
    refused true u v = refl
    refused false true v = refl
    refused false false true = refl
    refused false false false = refl

-- No string with a minus in it is parsed as an unsigned number.
pub parse_uint64_base_minus :
    (str : Bytes) (base umax : ℕ) → has b'-' str ≡ true → parse_uint64_base str base umax ≡ invalid
unfolding parse_uint64_base
parse_uint64_base_minus str base umax h = any (find_number base str)
  where
    any :
        (o : Option Found) → elim o [ none ↦ invalid | some f ↦ uint_in_range str umax f ] ≡ invalid
    any none = refl
    any (some f) = refused f
      where
        refused : (f : Found) → uint_in_range str umax f ≡ invalid
        refused f = uint_in_range_minus str umax f h

-- The parsers of the four unsigned types read back every number of their type, and refuse each
-- printed number that is larger.
pub parse_uint-print_nat :
    (n : ℕ)
    → (parse_uint8 (print_nat n) ≡ up_to 255 n)
      × (parse_uint16 (print_nat n) ≡ up_to 65535 n)
      × (parse_uint32 (print_nat n) ≡ up_to 4294967295 n)
      × (parse_uint64 (print_nat n) ≡ up_to uint64_max n)
unfolding parse_uint8 parse_uint16 parse_uint32 parse_uint64
parse_uint-print_nat n = (
  ap (λ p. p >>= λ i. parsed (i % 256)) (parse_uint64_base-print_nat n 255 (omega arith)) ∙ cast8,
  ap (λ p. p >>= λ i. parsed (i % 65536)) (parse_uint64_base-print_nat n 65535 (omega arith))
      ∙ cast16,
  ap (λ p. p >>= λ i. parsed (i % 4294967296))
        (parse_uint64_base-print_nat n 4294967295 (omega arith))
      ∙ cast32,
  parse_uint64_base-print_nat n uint64_max (omega arith),
)
  where
    cast8 : (up_to 255 n >>= λ i. parsed (i % 256)) ≡ up_to 255 n
    cast8 = ground arith

    cast16 : (up_to 65535 n >>= λ i. parsed (i % 65536)) ≡ up_to 65535 n
    cast16 = ground arith

    cast32 : (up_to 4294967295 n >>= λ i. parsed (i % 4294967296)) ≡ up_to 4294967295 n
    cast32 = ground arith

negative_suc : (a : ℕ) → negative (a + 1) ≡ negsuc a
negative_suc a = ap negative (let e : a + 1 ≡ suc a = omega arith in e)

module _ (n k : ℕ) (low : n < int64_limit) (high : k < int64_limit) where
  -- With bounds that int64_t has, a printed integer is parsed where it lies within them.
  parse_int64_base-print_int :
      (i : ℤ)
      → parse_int64_base (print_int i) 0 (negsuc n) (pos k) ≡ within_int (negsuc n) (pos k) i
  unfolding parse_int64_base int_in_range print_int
  parse_int64_base-print_int (pos a) =
      ap (λ o. elim o [ none ↦ invalid | some f ↦ int_in_range (negsuc n) (pos k) f ])
        (find-print_nat a)
      ∙ ground arith
  parse_int64_base-print_int (negsuc a) =
      ap (λ o. elim o [ none ↦ invalid | some f ↦ int_in_range (negsuc n) (pos k) f ])
        (find-print_minus (a + 1) (omega arith))
      ∙ below
    where
      below :
          int_in_range (negsuc n) (pos k) (record { minus = true; number = a + 1; ep = [] })
          ≡ within_int (negsuc n) (pos k) (negsuc a)
      below = rw (negative_suc a) (ground arith)

-- A cast to a type does not change a number of that type.
cast_within :
    (n k half : ℕ) (i : ℤ)
    → n < half
    → k < half
    → (within_int (negsuc n) (pos k) i >>= λ i. parsed (cast_int half i))
      ≡ within_int (negsuc n) (pos k) i
cast_within n k half (pos a) low high = elim (Bool-cases (ltb k a)) [
  | inl over ↦ rw over refl
  | inr fits ↦
      rw (fits, small a (ground arith), (let e : ltb a half ≡ true = ground arith in e)) refl
]
  where
    small : (a : ℕ) → a < half → a % (half + half) ≡ a
    small a h = mod-eq_of_lt {n = a} {m = half + half} (omega arith)
cast_within n k half (negsuc a) low high = elim (Bool-cases (ltb n a)) [
  | inl under ↦ rw under refl
  | inr fits ↦
      rw (fits, small a (ground arith), (let e : ltb a half ≡ true = ground arith in e)) refl
]
  where
    small : (a : ℕ) → a < half → a % (half + half) ≡ a
    small a h = mod-eq_of_lt {n = a} {m = half + half} (omega arith)

-- The parsers of the four signed types read back every number of their type, and refuse each
-- printed integer that is not one.
pub parse_int-print_int :
    (i : ℤ)
    → (parse_int8 (print_int i) ≡ within_int (negsuc 127) (pos 127) i)
      × (parse_int16 (print_int i) ≡ within_int (negsuc 32767) (pos 32767) i)
      × (parse_int32 (print_int i) ≡ within_int (negsuc 2147483647) (pos 2147483647) i)
      × (parse_int64 (print_int i) ≡ within_int int64_min int64_max i)
unfolding parse_int8 parse_int16 parse_int32 parse_int64
parse_int-print_int i = (
  ap (λ p. p >>= λ i. parsed (cast_int 128 i))
        (parse_int64_base-print_int 127 127 (omega arith) (omega arith) i)
      ∙ cast_within 127 127 128 i (omega arith) (omega arith),
  ap (λ p. p >>= λ i. parsed (cast_int 32768 i))
        (parse_int64_base-print_int 32767 32767 (omega arith) (omega arith) i)
      ∙ cast_within 32767 32767 32768 i (omega arith) (omega arith),
  ap (λ p. p >>= λ i. parsed (cast_int 2147483648 i))
        (parse_int64_base-print_int 2147483647 2147483647 (omega arith) (omega arith) i)
      ∙ cast_within 2147483647 2147483647 2147483648 i (omega arith) (omega arith),
  parse_int64_base-print_int 9223372036854775807 9223372036854775807 (omega arith) (omega arith) i,
)
