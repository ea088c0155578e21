-- ===== src/Cv/Number/Show.antt =====
-- What strtoll(3) finds in printed digits.
use cligen.Prelude.{
  ℕ, zero, suc, ◌+◌, ◌-◌, ◌*◌, ◌/◌, ◌%◌, ◌≤◌, ◌<◌, ◌≡◌, refl, ap, ◌∙◌, sym, arith, Bool, true,
  false, Option, none, some, [], ◌∷◌, ◌++◌, ◌==◌, ltb, append_assoc, append-nil, if◌then◌else◌,
  Bool-cases, inl, inr,
}
use cligen.Memory.{Bytes}
use cligen.Cv.Number.{
  digit, is_digit, scan, digits, print_nat, Found, find_number, sign, skip_space, prefix, has,
}

digit_decimal : (d : ℕ) → d < 10 → digit 10 (b'0' + d) ≡ some d
unfolding digit
digit_decimal d h = ground arith

pub scan-digit :
    (base n c d : ℕ) (s : Bytes)
    → digit base c ≡ some d
    → scan base n (c ∷ s) ≡ scan base (n * base + d) s
unfolding scan
scan-digit base n c d s e =
    ap (λ o. elim o [ none ↦ (n, c ∷ s) | some d ↦ scan base (n * base + d) s ]) e

pub digits_step :
    (fuel n : ℕ)
    → digits (suc fuel) n
      ≡ (if ltb n 10 then (b'0' + n) ∷ [] else digits fuel (n / 10) ++ ((b'0' + n % 10) ∷ []))
unfolding digits
digits_step fuel n = refl

scan-digits : (fuel n : ℕ) (r : Bytes) → n < fuel → scan 10 0 (digits fuel n ++ r) ≡ scan 10 n r
scan-digits zero n r h = absurd (omega arith)
scan-digits (suc fuel) n r h = elim (Bool-cases (ltb n 10)) [
  | inl one ↦
      rw (digits_step fuel n, one)
        (scan-digit 10 0 (b'0' + n) n r (digit_decimal n (ground arith))
          ∙ ap (λ k. scan 10 k r) (omega arith))
  | inr more ↦
      rw (digits_step fuel n, more, append_assoc (digits fuel (n / 10)) ((b'0' + n % 10) ∷ []) r)
        (scan-digits fuel (n / 10) ((b'0' + n % 10) ∷ r) (ground arith)
          ∙ scan-digit 10 (n / 10) (b'0' + n % 10) (n % 10) r (digit_decimal (n % 10) (omega arith))
          ∙ ap (λ k. scan 10 k r) (omega arith))
]

-- The first character of a number that is not 0.
record Leads (s : Bytes) : Type 0 where
  first : ℕ
  rest : Bytes
  is : s ≡ first ∷ rest
  low : b'1' ≤ first
  high : first ≤ b'9'

digits-Leads : (fuel n : ℕ) → 0 < n → n < fuel → Leads (digits fuel n)
digits-Leads zero n p h = absurd (omega arith)
digits-Leads (suc fuel) n p h = elim (Bool-cases (ltb n 10)) [
  | inl one ↦
      rw (digits_step fuel n, one)
        (record { first = b'0' + n; rest = []; is = refl; low = omega arith; high = ground arith })
  | inr more ↦
      let l = digits-Leads fuel (n / 10) (ground arith) (ground arith) in
      rw (digits_step fuel n, more)
        (record {
          first = l.first;
          rest = l.rest ++ ((b'0' + n % 10) ∷ []);
          is = ap (λ t. t ++ ((b'0' + n % 10) ∷ [])) l.is;
          low = l.low;
          high = l.high;
        })
]

prefix-decimal : (c : ℕ) (r : Bytes) → b'1' ≤ c → c ≤ b'9' → prefix 0 (c ∷ r) ≡ (10, c ∷ r)
unfolding prefix
prefix-decimal c r low high = rw (let e : (c == b'0') ≡ false = ground arith in e) refl

digit-decimal : (c : ℕ) → b'1' ≤ c → c ≤ b'9' → digit 10 c ≡ some (c - b'0')
unfolding digit
digit-decimal c low high = ground arith

is_digit-decimal : (c : ℕ) → b'1' ≤ c → c ≤ b'9' → is_digit 10 c ≡ true
is_digit-decimal c low high =
    ap (λ o. elim o [ none ↦ false | some d ↦ true ]) (digit-decimal c low high)

skip-decimal :
    (c : ℕ) (r : Bytes)
    → b'1' ≤ c
    → c ≤ b'9'
    → (skip_space (c ∷ r) ≡ c ∷ r) × (sign (c ∷ r) ≡ (false, c ∷ r))
unfolding skip_space
skip-decimal c r low high = (
  ground arith,
  rw
      (
        (let e : (c == b'-') ≡ false = ground arith in e),
        (let e : (c == b'+') ≡ false = ground arith in e),
      )
      refl,
)

pub skip_minus : (s : Bytes) → skip_space (b'-' ∷ s) ≡ b'-' ∷ s
unfolding skip_space
skip_minus s = refl

-- What strtoll(3) with base 0 finds in decimal digits, with or without a minus.
find-decimal :
    (c n : ℕ) (r : Bytes)
    → b'1' ≤ c
    → c ≤ b'9'
    → scan 10 0 (c ∷ r) ≡ (n, [])
    → (find_number 0 (c ∷ r) ≡ some (record { minus = false; number = n; ep = [] }))
      × (find_number 0 (b'-' ∷ (c ∷ r)) ≡ some (record { minus = true; number = n; ep = [] }))
unfolding find_number
find-decimal c n r low high e =
    let (skip, no_sign) = skip-decimal c r low high in
    (
      rw (skip, no_sign, prefix-decimal c r low high, e, is_digit-decimal c low high) refl,
      rw (skip_minus (c ∷ r), prefix-decimal c r low high, e, is_digit-decimal c low high) refl,
    )

abbrev pub found : Bool → ℕ → Option Found
found minus n = some (record { minus = minus; number = n; ep = [] })

find-digits :
    (s : Bytes) (n : ℕ)
    → Leads s
    → scan 10 0 s ≡ (n, [])
    → (find_number 0 s ≡ found false n) × (find_number 0 (b'-' ∷ s) ≡ found true n)
find-digits s n l e =
    let (plain, minus) =
      find-decimal l.first n l.rest l.low l.high (sym (ap (scan 10 0) l.is) ∙ e) in
    (ap (find_number 0) l.is ∙ plain, ap (λ t. find_number 0 (b'-' ∷ t)) l.is ∙ minus)

pub scan-print : (n : ℕ) → scan 10 0 (print_nat n) ≡ (n, [])
unfolding print_nat
scan-print n =
    ap (scan 10 0) (sym (append-nil (digits (suc n) n)))
    ∙ scan-digits (suc n) n [] (omega arith)
    ∙ unfold scan in refl

print-Leads : (n : ℕ) → 0 < n → Leads (print_nat n)
unfolding print_nat
print-Leads n p = digits-Leads (suc n) n p (omega arith)

find_zero : find_number 0 (print_nat 0) ≡ found false 0
unfolding find_number print_nat digits scan skip_space prefix digit
find_zero = refl

-- Printed numbers are found again.
pub find-print_nat : (n : ℕ) → find_number 0 (print_nat n) ≡ found false n
find-print_nat zero = find_zero
find-print_nat (suc n) =
    (find-digits (print_nat (suc n)) (suc n) (print-Leads (suc n) (omega arith))
      (scan-print (suc n))).0

pub find-print_minus : (n : ℕ) → 0 < n → find_number 0 (b'-' ∷ print_nat n) ≡ found true n
find-print_minus n p = (find-digits (print_nat n) n (print-Leads n p) (scan-print n)).1

-- Digits have no minus in them.
has-append : (c : ℕ) (a b : Bytes) → has c a ≡ false → has c b ≡ false → has c (a ++ b) ≡ false
has-append c [] b ha hb = hb
has-append c (x ∷ a) b ha hb = ground (arith, has-append c a b)

has-digits : (fuel n : ℕ) → has b'-' (digits fuel n) ≡ false
has-digits zero n = unfold digits in refl
has-digits (suc fuel) n = elim (Bool-cases (ltb n 10)) [
  | inl one ↦ rw (digits_step fuel n, one) (ground arith)
  | inr more ↦
      rw (digits_step fuel n, more)
        (has-append b'-' (digits fuel (n / 10)) ((b'0' + n % 10) ∷ []) (has-digits fuel (n / 10))
          (ground arith))
]

pub has-print_nat : (n : ℕ) → has b'-' (print_nat n) ≡ false
unfolding print_nat
has-print_nat n = has-digits (suc n) n
