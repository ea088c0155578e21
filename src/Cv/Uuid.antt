-- ===== src/Cv/Uuid.antt =====
-- `uuid2str` and `str2uuid` of cligen_cv.c.
mod RoundTrip
mod Sound
mod Tests
use cligen.Prelude.{
  ℕ, zero, suc, ◌+◌, ◌-◌, ◌*◌, Bool, Option, none, some, List, [], ◌∷◌, ◌++◌, ◌==◌, length, take,
  drop, if◌then◌else◌,
}
use cligen.Memory.{Bytes}
use cligen.Cv.Hex.{toint, hex}

-- The text of `uuid2str` for the bytes in groups of 4, 2, 2, 2 and 6.
abbrev pub text : Bytes → Bytes
text u =
    let u1 = drop 4 u in
    let u2 = drop 2 u1 in
    let u3 = drop 2 u2 in
    let u4 = drop 2 u3 in
    hex (take 4 u)
    ++ (b'-'
        ∷ (hex (take 2 u1)
            ++ (b'-'
                ∷ (hex (take 2 u2) ++ (b'-' ∷ (hex (take 2 u3) ++ (b'-' ∷ hex (take 6 u4))))))))

-- `uuid2str`, for a uuid of 16 bytes; snprintf(3) cuts the text to `len - 1` bytes.
pub uuid2str : Bytes → ℕ → Bytes
uuid2str u len = take (len - 1) (text u)

abbrev pub and_then :
    Option (Bytes × Bytes) → (Bytes → Bytes → Option (Bytes × Bytes)) → Option (Bytes × Bytes)
and_then none f = none
and_then (some (a, b)) f = f a b

-- The byte of two digits, in front of the bytes that are read behind it.
abbrev pub octet : Option ℕ → Option ℕ → Option (Bytes × Bytes) → Option (Bytes × Bytes)
octet (some a) (some b) (some (us, r)) = some ((a * 16 + b) ∷ us, r)
octet _ _ _ = none

-- A loop of `str2uuid` that reads `k` bytes, and the string behind them. At the end of the string
-- `toint` is given the NUL, and refuses it.
pub octets : ℕ → Bytes → Option (Bytes × Bytes)
octets zero s = some ([], s)
octets (suc k) (x ∷ y ∷ s) = octet (toint x) (toint y) (octets k s)
octets (suc k) _ = none

-- `in[j++] != '-'`, and the loop behind it.
pub dashed : ℕ → Bytes → Option (Bytes × Bytes)
dashed k [] = none
dashed k (c ∷ s) = if c == b'-' then octets k s else none

-- The five groups, with what is left of the string.
pub groups : Bytes → Option (Bytes × Bytes)
groups s = and_then (octets 4 s) λ a s1. and_then (dashed 2 s1) λ b s2.
    and_then (dashed 2 s2) λ c s3.
      and_then (dashed 2 s3)
        λ d s4. and_then (dashed 6 s4) λ e s5. some (a ++ (b ++ (c ++ (d ++ e))), s5)

abbrev pub at_end : Option (Bytes × Bytes) → Option Bytes
at_end none = none
at_end (some (u, rest)) = if length rest == 0 then some u else none

-- `str2uuid`; `none` is the error, of which the bytes that were already stored are left out.
pub str2uuid : Bytes → Option Bytes
str2uuid s = if length s == 36 then at_end (groups s) else none
