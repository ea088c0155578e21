-- ===== src/Cv/Decimal/RoundTrip.antt =====
-- Printing a decimal number and parsing the text.
use cligen.Prelude.{
  ℕ, zero, suc, ◌+◌, ◌-◌, ◌≤◌, ◌<◌, ◌≡◌, refl, ap, ◌∙◌, sym, arith, true, false, ◌||◌, none, some,
  [], ◌∷◌, ◌++◌, ◌==◌, ltb, length, take, drop, replicate, length-drop, append-nil, append_assoc,
  Returns,
}
use cligen.Memory.{Bytes, Machine}
use cligen.Cv.{parsed, invalid}
use cligen.Cv.Number.{
  ℤ, pos, negsuc, negative, Found, find_number, int_in_range, parse_int64_base, int64_min,
  int64_max, lt_int,
}
use cligen.Cv.Url.{break_at}
use cligen.Cv.Url.RoundTrip.{Free, Free-append, break_at-first}
use cligen.Cv.Decimal.{filled, parse_dec64, padded, with_point, dec64_print}
use cligen.Cv.Decimal.Digits.{
  AllDecimal, AllDecimal-take, Free-AllDecimal, padded-AllDecimal, length-padded, scan-padded,
  find_ten,
}

take-drop : (n : ℕ) (s : Bytes) → take n s ++ drop n s ≡ s
take-drop zero s = refl
take-drop (suc n) [] = refl
take-drop (suc n) (c ∷ s) = ap (λ t. c ∷ t) (take-drop n s)

-- Both parts of the split give back the digits, with what stands before them.
filled-point :
    (n : ℕ) (front s : Bytes)
    → n ≤ length s
    → (filled n (front ++ take (length s - n) s) (drop (length s - n) s) ≡ front ++ s)
      × (ltb n (length (drop (length s - n) s)) ≡ false)
filled-point n front s le = (
  ap (λ z. (front ++ take (length s - n) s) ++ (drop (length s - n) s ++ replicate z b'0'))
        none_left
      ∙ ap (λ t. (front ++ take (length s - n) s) ++ t) (append-nil (drop (length s - n) s))
      ∙ append_assoc front (take (length s - n) s) (drop (length s - n) s)
      ∙ ap (λ t. front ++ t) (take-drop (length s - n) s),
  exact (omega (arith, length-drop (length s - n) s)),
)
  where
    none_left : n - length (drop (length s - n) s) ≡ 0
    none_left = omega (arith, length-drop (length s - n) s)

    exact : {k : ℕ} → k ≡ n → ltb n k ≡ false
    exact e = ground arith

in_range_pos :
    (k : ℕ)
    → k < 9223372036854775808
    → int_in_range int64_min int64_max (record { minus = false; number = k; ep = [] })
      ≡ parsed (pos k)
unfolding int_in_range
in_range_pos k h = ground arith

in_range_negsuc :
    (k : ℕ)
    → k < 9223372036854775808
    → int_in_range int64_min int64_max (record { minus = true; number = k + 1; ep = [] })
      ≡ parsed (negsuc k)
unfolding int_in_range
in_range_negsuc k h = rw (ap negative (let e : k + 1 ≡ suc k = omega arith in e)) (ground arith)

parse-found :
    (s : Bytes) (f : Found) (i : ℤ)
    → find_number 10 s ≡ some f
    → int_in_range int64_min int64_max f ≡ parsed i
    → parse_int64_base s 10 int64_min int64_max ≡ parsed i
unfolding parse_int64_base
parse-found s f i e r =
    ap (λ o. elim o [ none ↦ invalid | some f ↦ int_in_range int64_min int64_max f ]) e ∙ r

module _ (m : Machine) (given : (k : ℕ) → m.grants k ≡ true) (n : ℕ) (one : 0 < n)
    (most : n ≤ 18) where
  -- Digits with a point in them, and `front` before them, are parsed as they are without the point.
  parse_dec64-point :
      (front s : Bytes)
      → Free b'.' front
      → AllDecimal s
      → n ≤ length s
      → parse_dec64 m (front ++ with_point n s) n
        ≡ parse_int64_base (front ++ s) 10 int64_min int64_max
  unfolding parse_dec64
  parse_dec64-point front s free decimal le =
      let (same, fits) = filled-point n front s le in
      rw
        (
          range,
          given (length (front ++ with_point n s) + 1),
          given (length (front ++ with_point n s) + n + 2),
          split,
        )
        (rw (fits, same) refl)
    where
      range : (n == 0 || ltb 18 n) ≡ false
      range = ground arith

      split :
          break_at b'.' (front ++ with_point n s)
          ≡ some (front ++ take (length s - n) s, drop (length s - n) s)
      split =
          ap (break_at b'.')
            (sym (append_assoc front (take (length s - n) s) (b'.' ∷ drop (length s - n) s)))
          ∙ break_at-first b'.' (front ++ take (length s - n) s) (drop (length s - n) s) (
              Free-append b'.' front (take (length s - n) s) free (
                Free-AllDecimal (take (length s - n) s) (AllDecimal-take (length s - n) s decimal)))

  -- While memory is granted, each decimal number of 1 to 18 digits behind the point, but the least
  -- one, is printed, and parsed from the text that is printed.
  pub parse_dec64-dec64_print :
      (i : ℤ)
      → lt_int (negsuc 9223372036854775807) i ≡ true
      → lt_int i (pos 9223372036854775808) ≡ true
      → Returns (dec64_print i n) (λ text. parse_dec64 m text n ≡ parsed i)
  unfolding dec64_print
  parse_dec64-dec64_print (pos k) low high =
      rw (range, Returns)
        (parse_dec64-point [] (padded (n + 1) k) tt (padded-AllDecimal (n + 1) k)
            (omega (arith, length-padded (n + 1) k))
          ∙ parse-found (padded (n + 1) k) _ (pos k)
              (find_ten (padded (n + 1) k) k (padded-AllDecimal (n + 1) k)
                (omega (arith, length-padded (n + 1) k)) (scan-padded (n + 1) k)).0
              (in_range_pos k (ground arith)))
    where
      range : (n == 0 || ltb 18 n) ≡ false
      range = ground arith
  parse_dec64-dec64_print (negsuc k) low high =
      rw (range, not_least, Returns)
        (parse_dec64-point (b'-' ∷ []) (padded (n + 1) (k + 1)) (refl, tt)
            (padded-AllDecimal (n + 1) (k + 1)) (omega (arith, length-padded (n + 1) (k + 1)))
          ∙ parse-found (b'-' ∷ padded (n + 1) (k + 1)) _ (negsuc k)
              (find_ten (padded (n + 1) (k + 1)) (k + 1) (padded-AllDecimal (n + 1) (k + 1))
                (omega (arith, length-padded (n + 1) (k + 1))) (scan-padded (n + 1) (k + 1))).1
              (in_range_negsuc k (ground arith)))
    where
      range : (n == 0 || ltb 18 n) ≡ false
      range = ground arith

      not_least : (k == 9223372036854775807) ≡ false
      not_least = ground arith
