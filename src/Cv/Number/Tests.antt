-- ===== src/Cv/Number/Tests.antt =====
-- Runs of the integer parsers.
use cligen.Prelude.{◌≡◌, refl, [], ◌∷◌}
use cligen.Cv.{parsed, invalid}
use cligen.Cv.Number.{
  pos, negsuc, digit, skip_space, prefix, scan, find_number, int_in_range, parse_int64_base,
  parse_int8, parse_int16, parse_int32, parse_int64, uint_in_range, parse_uint64_base, parse_uint8,
  parse_uint16, parse_uint32, parse_uint64, print_nat, print_int,
}
use cligen.Cv.Number.Range.{parse_uint-print_nat, parse_int-print_int}

-- " 0x1F" is 31, "010" is 8, and "08" is refused.
bases :
    (parse_uint8 (b' ' ∷ b'0' ∷ b'x' ∷ b'1' ∷ b'F' ∷ []) ≡ parsed 31)
    × (parse_int8 (b'0' ∷ b'1' ∷ b'0' ∷ []) ≡ parsed (pos 8))
    × (parse_int8 (b'0' ∷ b'8' ∷ []) ≡ invalid)
unfolding parse_uint8 parse_int8 parse_int64_base parse_uint64_base find_number skip_space prefix
    scan digit int_in_range uint_in_range
bases = (refl, refl, refl)

limits :
    (parse_int8 (b'-' ∷ b'1' ∷ b'2' ∷ b'8' ∷ []) ≡ parsed (negsuc 127))
    × (parse_int8 (b'1' ∷ b'2' ∷ b'8' ∷ []) ≡ invalid)
unfolding parse_int8 parse_int64_base find_number skip_space prefix scan digit int_in_range
limits = (refl, refl)

parse_uint-print_nat_example :
    (parse_uint8 (print_nat 300) ≡ invalid)
    × (parse_uint16 (print_nat 300) ≡ parsed 300)
    × (parse_uint32 (print_nat 300) ≡ parsed 300)
    × (parse_uint64 (print_nat 300) ≡ parsed 300)
parse_uint-print_nat_example = parse_uint-print_nat 300

parse_int-print_int_example :
    (parse_int8 (print_int (negsuc 299)) ≡ invalid)
    × (parse_int16 (print_int (negsuc 299)) ≡ parsed (negsuc 299))
    × (parse_int32 (print_int (negsuc 299)) ≡ parsed (negsuc 299))
    × (parse_int64 (print_int (negsuc 299)) ≡ parsed (negsuc 299))
parse_int-print_int_example = parse_int-print_int (negsuc 299)
