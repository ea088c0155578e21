-- ===== src/Cv/Mac/Tests.antt =====
-- Runs of `parse_macaddr`.
use cligen.Prelude.{◌≡◌, refl, none, some, [], ◌∷◌, map, length, returns}
use cligen.Memory.{Bytes}
use cligen.Cv.Hex.{toint, lower}
use cligen.Cv.Mac.{parse_macaddr, print_mac}
use cligen.Cv.Mac.RoundTrip.{Pairs, parse_macaddr-Pairs}

-- "00:1A:2b:33:ff:09"
abbrev address : Bytes
address =
    b'0' ∷ b'0' ∷ b':' ∷ b'1' ∷ b'A' ∷ b':' ∷ b'2' ∷ b'b' ∷ b':' ∷ b'3' ∷ b'3' ∷ b':' ∷ b'f' ∷ b'f'
    ∷ b':' ∷ b'0' ∷ b'9' ∷ []

address-Pairs : Pairs 5 address
unfolding toint
address-Pairs = (
  (0, refl),
  (0, refl),
  refl,
  (
    (1, refl),
    (10, refl),
    refl,
    (
      (2, refl),
      (11, refl),
      refl,
      ((3, refl), (3, refl), refl, ((15, refl), (15, refl), refl, ((0, refl), (9, refl)))),
    ),
  ),
)

too_short : parse_macaddr (b'0' ∷ b'0' ∷ []) ≡ returns none
unfolding parse_macaddr
too_short = refl

parse_macaddr-Pairs_example :
    (addr : Bytes) × (parse_macaddr address ≡ returns (some addr))
    × (length addr ≡ 6)
    × (print_mac addr ≡ map lower address)
parse_macaddr-Pairs_example = parse_macaddr-Pairs address address-Pairs
