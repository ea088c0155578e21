-- ===== src/Cv/Decimal/Tests.antt =====
-- Runs of `parse_dec64` and `cv_dec64_print`.
use cligen.Prelude.{◌≡◌, refl, arith, true, [], ◌∷◌, returns, Returns}
use cligen.Memory.{Machine}
use cligen.Cv.{parsed, invalid}
use cligen.Cv.Number.{
  pos, negsuc, digit, skip_space, prefix, scan, find_number, int_in_range, parse_int64_base, digits,
  print_nat,
}
use cligen.Cv.Url.{break_at}
use cligen.Cv.Decimal.{parse_dec64, dec64_print}
use cligen.Cv.Decimal.RoundTrip.{parse_dec64-dec64_print}

abbrev roomy : Machine
roomy = record { grants = λ n. true; junk = λ i. 170 }

-- "-0.05", "2" and "1.234" with two digits behind the point.
runs :
    (dec64_print (negsuc 4) 2 ≡ returns (b'-' ∷ b'0' ∷ b'.' ∷ b'0' ∷ b'5' ∷ []))
    × (parse_dec64 roomy (b'2' ∷ []) 2 ≡ parsed (pos 200))
    × (parse_dec64 roomy (b'1' ∷ b'.' ∷ b'2' ∷ b'3' ∷ b'4' ∷ []) 2 ≡ invalid)
unfolding dec64_print parse_dec64 break_at parse_int64_base find_number skip_space prefix scan digit
    int_in_range print_nat digits
runs = (refl, refl, refl)

parse_dec64-dec64_print_example :
    Returns (dec64_print (negsuc 4) 2) (λ text. parse_dec64 roomy text 2 ≡ parsed (negsuc 4))
parse_dec64-dec64_print_example =
    parse_dec64-dec64_print roomy (λ k. refl) 2 (omega arith) (omega arith) (negsuc 4) refl refl
