-- ===== src/Cv/Compare/Order.antt =====
-- What `cv_cmp_int64_uint64` and `cv_cmp_ints` return.
use cligen.Prelude.{
  ℕ, ◌+◌, ◌-◌, ◌*◌, ◌%◌, ◌≤◌, ◌<◌, ◌≡◌, refl, ap, ap₂, ◌∙◌, arith, true, some, ltb, if◌then◌else◌,
}
use native.Mathlib.Nat.{zero-div, zero-mul}
use cligen.Cv.Number.{ℤ, pos, negsuc, lt_int}
use cligen.Cv.Compare.{
  CvType, is_int, int8, int16, int32, int64, uint8, uint16, uint32, uint64, Var, low, put_low,
  int8_set, int64_set, cmp_int64_uint64, to_int64, order_int, order_nat, cmp_ints, switch, start,
}

-- An int64_t and a uint64_t are compared as the integers that they are.
pub cmp_int64_uint64-order_int :
    (i : ℤ) (u : ℕ)
    → lt_int i (pos 9223372036854775808) ≡ true
    → cmp_int64_uint64 i u ≡ order_int i (pos u)
unfolding cmp_int64_uint64
cmp_int64_uint64-order_int (negsuc n) u h = refl
cmp_int64_uint64-order_int (pos n) u h =
    ap
      (λ k.
        if ltb n 0
        then negsuc 0
        else if ltb k u
        then negsuc 0
        else if ltb u k
        then pos 1
        else pos 0)
      (small n (ground arith))
    ∙ nonnegative n u
  where
    small : (n : ℕ) → n < 9223372036854775808 → n % 18446744073709551616 ≡ n
    small n lt = omega arith

    nonnegative : (n u : ℕ) → (if ltb n 0 then negsuc 0 else order_nat n u) ≡ order_nat n u
    nonnegative n u = ground arith

-- The eight bytes, as an unsigned number.
abbrev word_of : Var → ℕ
word_of cv = low 18446744073709551616 cv

-- Every integer type ends at the last label: the value is the whole word, without a sign.
to_int64-word :
    (cv : Var)
    → is_int cv.var_type ≡ true
    → ((to_int64 cv).retval ≡ pos 0) × ((to_int64 cv).u64 ≡ some (word_of cv))
unfolding to_int64
to_int64-word cv h = by_type cv.var_type cv h
  where
    by_type :
        (t : CvType) (cv : Var)
        → is_int t ≡ true
        → ((switch t cv start).retval ≡ pos 0) × ((switch t cv start).u64 ≡ some (word_of cv))
    by_type int8 cv h = (refl, refl)
    by_type int16 cv h = (refl, refl)
    by_type int32 cv h = (refl, refl)
    by_type int64 cv h = (refl, refl)
    by_type uint8 cv h = (refl, refl)
    by_type uint16 cv h = (refl, refl)
    by_type uint32 cv h = (refl, refl)
    by_type uint64 cv h = (refl, refl)
    by_type _ cv h = cc h

-- `cv_cmp_ints` compares the eight bytes of two integers as unsigned numbers, whatever types they
-- have, since no case of `cv_to_int64` ends with a break.
pub cmp_ints-word :
    (a b : Var)
    → is_int a.var_type ≡ true
    → is_int b.var_type ≡ true
    → cmp_ints a b ≡ some (order_nat (word_of a) (word_of b))
unfolding cmp_ints
cmp_ints-word a b ha hb =
    let (ra, ua) = to_int64-word a ha in
    let (rb, ub) = to_int64-word b hb in rw (ra, rb, ua, ub) refl

-- A variable of a type, all of whose bytes are 0.
abbrev pub zeroed : CvType → Var
zeroed t = record { var_type = t; word = 0 }

word_of-put :
    (size : ℕ) (t : CvType) (b : ℕ)
    → 0 < size
    → size ≤ 18446744073709551616
    → b < size
    → word_of (put_low size (zeroed t) b) ≡ b
word_of-put size t b p le lt =
    ap (λ w. (w + b) % 18446744073709551616) (ap (λ q. q * size) (zero-div size) ∙ zero-mul size)
    ∙ omega arith

-- A negative int8 or int64 is larger than every one that is not negative.
pub cmp_ints_negative :
    (n a k b : ℕ)
    → n < 128
    → a < 128
    → k < 9223372036854775808
    → b < 9223372036854775808
    → (cmp_ints (int8_set (zeroed int8) (negsuc n)) (int8_set (zeroed int8) (pos a)) ≡ some (pos 1))
      × (cmp_ints (int64_set (zeroed int64) (negsuc k)) (int64_set (zeroed int64) (pos b))
          ≡ some (pos 1))
unfolding int8_set int64_set
cmp_ints_negative n a k b hn ha hk hb = (
  cmp_ints-word v8 w8 refl refl
      ∙ ap₂ (λ x y. some (order_nat x y))
          (word_of-put 256 int8 (255 - n % 256) (omega arith) (omega arith) (omega arith))
          (word_of-put 256 int8 (a % 256) (omega arith) (omega arith) (omega arith))
      ∙ ap some (larger (255 - n % 256) (a % 256) (omega arith)),
  cmp_ints-word v64 w64 refl refl
      ∙ ap₂ (λ x y. some (order_nat x y))
          (word_of-put 18446744073709551616 int64 (18446744073709551615 - k % 18446744073709551616)
            (omega arith) (omega arith) (omega arith))
          (word_of-put 18446744073709551616 int64 (b % 18446744073709551616) (omega arith)
            (omega arith) (omega arith))
      ∙ ap some (
          larger (18446744073709551615 - k % 18446744073709551616) (b % 18446744073709551616)
            (omega arith)),
)
  where
    v8 : Var
    v8 = put_low 256 (zeroed int8) (255 - n % 256)

    w8 : Var
    w8 = put_low 256 (zeroed int8) (a % 256)

    v64 : Var
    v64 =
        put_low 18446744073709551616 (zeroed int64)
          (18446744073709551615 - k % 18446744073709551616)

    w64 : Var
    w64 = put_low 18446744073709551616 (zeroed int64) (b % 18446744073709551616)

    larger : (x y : ℕ) → y < x → order_nat x y ≡ pos 1
    larger x y h = ground arith
