-- ===== src/Cv/Decimal/Digits.antt =====
-- Decimal digits with zeros before them.
use cligen.Prelude.{
  ℕ, zero, suc, ◌+◌, ◌-◌, ◌/◌, ◌%◌, ◌≤◌, ◌<◌, ◌≡◌, refl, ap, ◌∙◌, arith, true, false, none, some,
  [], ◌∷◌, ◌++◌, ◌==◌, ltb, length, take, replicate, length-append, length-replicate, Bool-cases,
  inl, inr,
}
use cligen.Memory.{Bytes}
use cligen.Cv.Number.{
  digit, is_digit, scan, digits, print_nat, find_number, sign, skip_space, prefix,
}
use cligen.Cv.Number.Show.{scan-print, scan-digit, digits_step, skip_minus}
use cligen.Cv.Url.RoundTrip.{Free}
use cligen.Cv.Decimal.{padded}

abbrev pub AllDecimal : Bytes → Type 0
AllDecimal [] = Unit
AllDecimal (c ∷ s) = (b'0' ≤ c) × (c ≤ b'9') × AllDecimal s

AllDecimal-append : (a b : Bytes) → AllDecimal a → AllDecimal b → AllDecimal (a ++ b)
AllDecimal-append [] b ha hb = hb
AllDecimal-append (c ∷ a) b ha hb = (ha.0, ha.1, AllDecimal-append a b ha.2 hb)

pub AllDecimal-take : (n : ℕ) (s : Bytes) → AllDecimal s → AllDecimal (take n s)
AllDecimal-take zero s h = tt
AllDecimal-take (suc n) [] h = tt
AllDecimal-take (suc n) (c ∷ s) h = (h.0, h.1, AllDecimal-take n s h.2)

pub Free-AllDecimal : (s : Bytes) → AllDecimal s → Free b'.' s
Free-AllDecimal [] h = tt
Free-AllDecimal (c ∷ s) h = (other c h.0, Free-AllDecimal s h.2)
  where
    other : (c : ℕ) → b'0' ≤ c → (c == b'.') ≡ false
    other c low = ground arith

digits-AllDecimal : (fuel n : ℕ) → AllDecimal (digits fuel n)
digits-AllDecimal zero n = unfold digits in tt
digits-AllDecimal (suc fuel) n = elim (Bool-cases (ltb n 10)) [
  | inl one ↦ rw (digits_step fuel n, one) (omega arith, ground arith, tt)
  | inr more ↦
      rw (digits_step fuel n, more)
        (AllDecimal-append (digits fuel (n / 10)) ((b'0' + n % 10) ∷ [])
          (digits-AllDecimal fuel (n / 10)) (omega arith, omega arith, tt))
]

zeros-AllDecimal : (z : ℕ) → AllDecimal (replicate z b'0')
zeros-AllDecimal zero = tt
zeros-AllDecimal (suc z) = (omega arith, omega arith, zeros-AllDecimal z)

pub padded-AllDecimal : (width k : ℕ) → AllDecimal (padded width k)
unfolding print_nat
padded-AllDecimal width k =
    AllDecimal-append (replicate (width - length (print_nat k)) b'0') (print_nat k)
      (zeros-AllDecimal (width - length (print_nat k))) (digits-AllDecimal (suc k) k)

pub length-padded : (width k : ℕ) → width ≤ length (padded width k)
length-padded width k = omega (
  arith,
  length-append (replicate (width - length (print_nat k)) b'0') (print_nat k),
  length-replicate {A = ℕ} (width - length (print_nat k)) b'0',
)

zero_digit : digit 10 b'0' ≡ some 0
unfolding digit
zero_digit = refl

scan-zeros : (z : ℕ) (s : Bytes) → scan 10 0 (replicate z b'0' ++ s) ≡ scan 10 0 s
scan-zeros zero s = refl
scan-zeros (suc z) s = scan-digit 10 0 b'0' 0 (replicate z b'0' ++ s) zero_digit ∙ scan-zeros z s

pub scan-padded : (width k : ℕ) → scan 10 0 (padded width k) ≡ (k, [])
scan-padded width k = scan-zeros (width - length (print_nat k)) (print_nat k) ∙ scan-print k

prefix-ten : (s : Bytes) → prefix 10 s ≡ (10, s)
unfolding prefix
prefix-ten s = refl

decimal_digit : (c : ℕ) → b'0' ≤ c → c ≤ b'9' → digit 10 c ≡ some (c - b'0')
unfolding digit
decimal_digit c low high = ground arith

decimal_is_digit : (c : ℕ) → b'0' ≤ c → c ≤ b'9' → is_digit 10 c ≡ true
decimal_is_digit c low high =
    ap (λ o. elim o [ none ↦ false | some d ↦ true ]) (decimal_digit c low high)

skip_decimal :
    (c : ℕ) (r : Bytes)
    → b'0' ≤ c
    → c ≤ b'9'
    → (skip_space (c ∷ r) ≡ c ∷ r) × (sign (c ∷ r) ≡ (false, c ∷ r))
unfolding skip_space
skip_decimal c r low high = (
  ground arith,
  rw
      (
        (let e : (c == b'-') ≡ false = ground arith in e),
        (let e : (c == b'+') ≡ false = ground arith in e),
      )
      refl,
)

-- What strtoll(3) with base 10 finds in digits, with or without a minus.
pub find_ten :
    (s : Bytes) (n : ℕ)
    → AllDecimal s
    → 0 < length s
    → scan 10 0 s ≡ (n, [])
    → (find_number 10 s ≡ some (record { minus = false; number = n; ep = [] }))
      × (find_number 10 (b'-' ∷ s) ≡ some (record { minus = true; number = n; ep = [] }))
unfolding find_number
find_ten [] n h some_digit e = absurd (omega arith)
find_ten (c ∷ r) n h some_digit e =
    let (skip, no_sign) = skip_decimal c r h.0 h.1 in
    (
      rw (skip, no_sign, prefix-ten (c ∷ r), e, decimal_is_digit c h.0 h.1) refl,
      rw (skip_minus (c ∷ r), prefix-ten (c ∷ r), e, decimal_is_digit c h.0 h.1) refl,
    )
