-- ===== src/Cv/Decimal.antt =====
-- `parse_dec64` and `cv_dec64_print` of cligen_cv.c: decimal numbers with a fixed number of digits
-- behind the point.
mod Digits
mod RoundTrip
mod Tests
use cligen.Prelude.{
  ℕ, zero, suc, ◌+◌, ◌-◌, Bool, true, false, ◌&&◌, ◌||◌, Option, none, some, List, [], ◌∷◌, ◌++◌,
  ◌==◌, ltb, length, take, drop, replicate, if◌then◌else◌, Outcome, returns, fault,
}
use cligen.Memory.{Bytes, Machine}
use cligen.Cv.{Parsed, parsed, invalid, error, ◌>>=◌, dup}
use cligen.Cv.Number.{ℤ, pos, negsuc, parse_int64_base, int64_min, int64_max, print_nat}
use cligen.Cv.Url.{break_at}

-- The string that is given to `parse_int64_base`: both parts, and zeros behind them.
abbrev pub filled : ℕ → Bytes → Bytes → Bytes
filled n s1 s2 = s1 ++ (s2 ++ replicate (n - length s2) b'0')

-- What follows the split at the point; `none` where there is no point.
abbrev after_split : Bytes → ℕ → Option (Bytes × Bytes) → Parsed ℤ
after_split s0 n none = parse_int64_base (filled n s0 []) 10 int64_min int64_max
after_split s0 n (some (s1, s2)) =
    if ltb n (length s2) then invalid else parse_int64_base (filled n s1 s2) 10 int64_min int64_max

pub parse_dec64 : Machine → Bytes → ℕ → Parsed ℤ
parse_dec64 m str n =
    if n == 0 || ltb 18 n
    then invalid
    else dup m str >>= λ s0.
        if m.grants (length str + n + 2) then after_split s0 n (break_at b'.' s0) else error

-- `"%0*d"` with a width of `width`.
abbrev pub padded : ℕ → ℕ → Bytes
padded width k = replicate (width - length (print_nat k)) b'0' ++ print_nat k

-- The point in front of the last `n` digits.
abbrev pub with_point : ℕ → Bytes → Bytes
with_point n s = take (length s - n) s ++ (b'.' ∷ drop (length s - n) s)

-- `cv_dec64_print`, into a buffer with room for any such number. The assertion on `n` and the
-- negation of the least int64_t, which overflows, are faults.
pub dec64_print : ℤ → ℕ → Outcome Bytes
dec64_print i n = if n == 0 || ltb 18 n then fault else elim i [
  | pos k ↦ returns (with_point n (padded (n + 1) k))
  | negsuc k ↦
      if k == 9223372036854775807
      then fault
      else returns (b'-' ∷ with_point n (padded (n + 1) (k + 1)))
]
