-- ===== src/Cv/Mac.antt =====
-- `parse_macaddr` of cligen_cv.c, and how `cv2cbuf` prints an address.
mod RoundTrip
mod Tests
use cligen.Prelude.{
  ℕ, zero, suc, ◌+◌, ◌*◌, ◌%◌, Bool, true, false, ◌&&◌, ◌||◌, not, Option, none, some, List, [],
  ◌∷◌, ◌++◌, ◌==◌, map, length, get_or, drop, if◌then◌else◌, Outcome, returns, ◌>>=◌, within,
}
use cligen.Memory.{Bytes}
use cligen.Cv.Hex.{toint, hex}

-- MACADDR_STRLEN
abbrev pub strlen : ℕ
strlen = 17

abbrev is_some {ℓ} : {A : Type ℓ} → Option A → Bool
is_some none = false
is_some (some a) = true

-- isxdigit(3)
abbrev is_xdigit : ℕ → Bool
is_xdigit c = is_some (toint c)

-- The loop over the characters: `n_colons`, or `none` at an invalid one.
pub count_colons : ℕ → Bytes → Option ℕ
count_colons n [] = some n
count_colons n (c ∷ s) =
    if is_xdigit c then count_colons n s else if c == b':' then count_colons (n + 1) s else none

abbrev pub colon_at : Bytes → ℕ → Bool
colon_at s i = get_or s i 0 == b':'

-- The octets have two characters each. `str[17]` is the NUL.
abbrev pub well_formed : Bytes → Bool
well_formed s = colon_at s 2 && (colon_at s 5 && (colon_at s 8 && (colon_at s 11 && colon_at s 14)))

-- The conversion `%x` of sscanf(3), or `%2x`, after some digits: the number, and what follows it.
-- The strings that it is given here have no blank, sign or `0x`.
pub scan_hex : Bytes → ℕ → ℕ → ℕ × Bytes
scan_hex [] width n = (n, [])
scan_hex (c ∷ s) zero n = (n, c ∷ s)
scan_hex (c ∷ s) (suc width) n = elim (toint c) [
  | none ↦ (n, c ∷ s)
  | some d ↦ scan_hex s width (n * 16 + d)
]

abbrev cons : ℕ → Option (List ℕ) → Option (List ℕ)
cons n none = none
cons n (some ns) = some (n ∷ ns)

-- The conversions, with a colon between them; `none` where sscanf(3) would stop before the last,
-- and leave an octet unset.
pub scan_octets : ℕ → Bytes → Option (List ℕ)
scan_octets zero s = some []
scan_octets (suc zero) s = if is_xdigit (get_or s 0 0) then some ((scan_hex s 2 0).0 ∷ []) else none
scan_octets (suc (suc k)) s =
    let (n, rest) = scan_hex s 2 0 in
    let more = scan_octets (suc k) (drop 1 rest) in
    if is_xdigit (get_or s 0 0) && colon_at rest 0 then cons n more else none

-- `parse_macaddr`, with `none` for an invalid string. An octet that is read without having been set
-- is a fault. The first conversion is `%x`; it ends at the colon that stands at index 2.
pub parse_macaddr : Bytes → Outcome (Option Bytes)
parse_macaddr s = if not (length s == strlen) then returns none else elim (count_colons 0 s) [
  | none ↦ returns none
  | some n ↦
      if not (n == 5)
      then returns none
      else if not (well_formed s)
      then returns none
      else (within (scan_octets 6 s) >>= λ octets. returns (some (map (λ o. o % 256) octets)))
]

-- "%02x:%02x:%02x:%02x:%02x:%02x" in `cv2cbuf`.
pub print_mac : Bytes → Bytes
print_mac [] = []
print_mac (u ∷ []) = hex (u ∷ [])
print_mac (u ∷ us) = hex (u ∷ []) ++ (b':' ∷ print_mac us)
