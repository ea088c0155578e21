-- ===== src/Cv/Mac/RoundTrip.antt =====
-- `parse_macaddr` of pairs of digits, and printing what it reads.
use cligen.Prelude.{
  ℕ, zero, suc, ◌+◌, ◌*◌, ◌/◌, ◌%◌, ◌<◌, ◌≡◌, refl, ap, ap₂, ◌∙◌, sym, arith, true, none, some,
  List, [], ◌∷◌, ◌++◌, ◌==◌, map, length, get_or, returns,
}
use cligen.Memory.{Bytes}
use cligen.Cv.Hex.{toint, hex, hex_digit, lower, hex_digit-toint}
use cligen.Cv.Mac.{
  count_colons, colon_at, well_formed, scan_hex, scan_octets, parse_macaddr, print_mac,
}

abbrev IsHex : ℕ → Type 0
IsHex c = (d : ℕ) × (toint c ≡ some d)

-- `j + 1` pairs of hexadecimal digits with colons between them.
abbrev pub Pairs : ℕ → Bytes → Type 0
Pairs zero (x ∷ (y ∷ [])) = IsHex x × IsHex y
Pairs (suc j) (x ∷ (y ∷ (c ∷ s))) = IsHex x × IsHex y × (c ≡ b':') × Pairs j s
Pairs _ _ = ⊥

length-Pairs : (j : ℕ) (s : Bytes) → Pairs j s → length s ≡ j * 3 + 2
length-Pairs zero (x ∷ (y ∷ [])) p = refl
length-Pairs (suc j) (x ∷ (y ∷ (c ∷ s))) (hx, hy, e, p) = omega (arith, length-Pairs j s p)
length-Pairs zero [] p = absurd p
length-Pairs zero (x ∷ []) p = absurd p
length-Pairs zero (x ∷ (y ∷ (z ∷ s))) p = absurd p
length-Pairs (suc j) [] p = absurd p
length-Pairs (suc j) (x ∷ []) p = absurd p
length-Pairs (suc j) (x ∷ (y ∷ [])) p = absurd p

colon_at-Pairs : (i j : ℕ) (s : Bytes) → i < j → Pairs j s → colon_at s (i * 3 + 2) ≡ true
colon_at-Pairs zero (suc j) (x ∷ (y ∷ (c ∷ s))) lt (hx, hy, e, p) = ground arith
colon_at-Pairs (suc i) (suc j) (x ∷ (y ∷ (c ∷ s))) lt (hx, hy, e, p) =
    ap (λ n. get_or (x ∷ (y ∷ (c ∷ s))) n 0 == b':') (index i)
    ∙ colon_at-Pairs i j s (omega arith) p
  where
    index : (i : ℕ) → suc i * 3 + 2 ≡ suc (suc (suc (i * 3 + 2)))
    index i = omega arith
colon_at-Pairs i zero s lt p = absurd (omega arith)
colon_at-Pairs i (suc j) [] lt p = absurd p
colon_at-Pairs i (suc j) (x ∷ []) lt p = absurd p
colon_at-Pairs i (suc j) (x ∷ (y ∷ [])) lt p = absurd p

well_formed-Pairs : (s : Bytes) → Pairs 5 s → well_formed s ≡ true
well_formed-Pairs s p =
    rw
      (
        colon_at-Pairs 0 5 s (omega arith) p,
        colon_at-Pairs 1 5 s (omega arith) p,
        colon_at-Pairs 2 5 s (omega arith) p,
        colon_at-Pairs 3 5 s (omega arith) p,
        colon_at-Pairs 4 5 s (omega arith) p,
      )
      refl

count_digit : (n c : ℕ) (s : Bytes) → IsHex c → count_colons n (c ∷ s) ≡ count_colons n s
unfolding count_colons
count_digit n c s (d, e) = rw e refl

count_colon : (n c : ℕ) (s : Bytes) → c ≡ b':' → count_colons n (c ∷ s) ≡ count_colons (n + 1) s
unfolding count_colons toint
count_colon n c s e = ap (λ c. count_colons n (c ∷ s)) e

count-Pairs : (j n : ℕ) (s : Bytes) → Pairs j s → count_colons n s ≡ some (n + j)
count-Pairs zero n (x ∷ (y ∷ [])) (hx, hy) =
    count_digit n x (y ∷ []) hx
    ∙ count_digit n y [] hy
    ∙ unfold count_colons in ap some (omega arith)
count-Pairs (suc j) n (x ∷ (y ∷ (c ∷ s))) (hx, hy, e, p) =
    count_digit n x (y ∷ (c ∷ s)) hx
    ∙ count_digit n y (c ∷ s) hy
    ∙ count_colon n c s e
    ∙ count-Pairs j (n + 1) s p
    ∙ ap some (omega arith)
count-Pairs zero n [] p = absurd p
count-Pairs zero n (x ∷ []) p = absurd p
count-Pairs zero n (x ∷ (y ∷ (z ∷ s))) p = absurd p
count-Pairs (suc j) n [] p = absurd p
count-Pairs (suc j) n (x ∷ []) p = absurd p
count-Pairs (suc j) n (x ∷ (y ∷ [])) p = absurd p

-- A pair of digits is read, and what follows it is left.
scan_hex_step :
    (c d w n : ℕ) (s : Bytes)
    → toint c ≡ some d
    → scan_hex (c ∷ s) (suc w) n ≡ scan_hex s w (n * 16 + d)
unfolding scan_hex
scan_hex_step c d w n s e =
    ap (λ o. elim o [ none ↦ (n, c ∷ s) | some d ↦ scan_hex s w (n * 16 + d) ]) e

scan_hex_stop : (n : ℕ) (s : Bytes) → scan_hex s 0 n ≡ (n, s)
unfolding scan_hex
scan_hex_stop n [] = refl
scan_hex_stop n (c ∷ s) = refl

scan_hex-pair :
    (x y a b : ℕ) (s : Bytes)
    → toint x ≡ some a
    → toint y ≡ some b
    → scan_hex (x ∷ (y ∷ s)) 2 0 ≡ (a * 16 + b, s)
scan_hex-pair x y a b s ex ey =
    scan_hex_step x a 1 0 (y ∷ s) ex
    ∙ scan_hex_step y b 0 (0 * 16 + a) s ey
    ∙ scan_hex_stop ((0 * 16 + a) * 16 + b) s
    ∙ ap (λ n. (n, s)) (omega arith)

-- The octets are those whose text, in lower case, was read.
abbrev Scanned : ℕ → Bytes → List ℕ → Type 0
Scanned j s ns = (print_mac (map (λ o. o % 256) ns) ≡ map lower s) × (length ns ≡ j + 1)

hex-pair :
    (x y a b : ℕ)
    → toint x ≡ some a
    → toint y ≡ some b
    → hex ((a * 16 + b) % 256 ∷ []) ≡ lower x ∷ (lower y ∷ [])
unfolding hex
hex-pair x y a b ex ey =
    let (dx, la) = hex_digit-toint x a ex in
    let (dy, lb) = hex_digit-toint y b ey in
    ap₂ (λ p q. p ∷ (q ∷ [])) (ap hex_digit (high a b la lb) ∙ dx)
      (ap hex_digit (low a b la lb) ∙ dy)
  where
    high : (a b : ℕ) → a < 16 → b < 16 → (a * 16 + b) % 256 % 256 / 16 ≡ a
    high a b ha hb = omega arith

    low : (a b : ℕ) → a < 16 → b < 16 → (a * 16 + b) % 256 % 16 ≡ b
    low a b ha hb = omega arith

print_mac_step :
    (u : ℕ) (us : Bytes)
    → 0 < length us
    → print_mac (u ∷ us) ≡ hex (u ∷ []) ++ (b':' ∷ print_mac us)
unfolding print_mac
print_mac_step u [] h = absurd (omega arith)
print_mac_step u (v ∷ us) h = refl

length-map : (ns : List ℕ) → length (map (λ o. o % 256) ns) ≡ length ns
length-map [] = refl
length-map (n ∷ ns) = ap suc (length-map ns)

scan_octets_step :
    (j x y a b c : ℕ) (s : Bytes) (ns : List ℕ)
    → toint x ≡ some a
    → toint y ≡ some b
    → c ≡ b':'
    → scan_octets (suc j) s ≡ some ns
    → scan_octets (suc (suc j)) (x ∷ (y ∷ (c ∷ s))) ≡ some ((a * 16 + b) ∷ ns)
scan_octets_step j x y a b c s ns ex ey ec scanned =
    unfold scan_octets in rw (scan_hex-pair x y a b (c ∷ s) ex ey, ex, colon c ec, scanned) refl
  where
    colon : (c : ℕ) → c ≡ b':' → (c == b':') ≡ true
    colon c e = ground arith

scan_octets_last :
    (x y a b : ℕ)
    → toint x ≡ some a
    → toint y ≡ some b
    → scan_octets 1 (x ∷ (y ∷ [])) ≡ some ((a * 16 + b) ∷ [])
unfolding scan_octets
scan_octets_last x y a b ex ey = rw (ex, scan_hex-pair x y a b [] ex ey) refl

scan_octets-Scanned :
    (j : ℕ) (s : Bytes)
    → Pairs j s
    → (ns : List ℕ) × (scan_octets (suc j) s ≡ some ns) × Scanned j s ns
scan_octets-Scanned zero (x ∷ (y ∷ [])) ((a, ex), (b, ey)) = (
  (a * 16 + b) ∷ [],
  scan_octets_last x y a b ex ey,
  (unfold print_mac in hex-pair x y a b ex ey, refl),
)
scan_octets-Scanned (suc j) (x ∷ (y ∷ (c ∷ s))) ((a, ex), (b, ey), ec, p) =
    let (ns, scanned, (same, size)) = scan_octets-Scanned j s p in
    (
      (a * 16 + b) ∷ ns,
      scan_octets_step j x y a b c s ns ex ey ec scanned,
      (
        print_mac_step ((a * 16 + b) % 256) (map (λ o. o % 256) ns)
              (omega (arith, size, length-map ns))
            ∙ ap₂ (λ p q. p ++ (b':' ∷ q)) (hex-pair x y a b ex ey) same
            ∙ ap (λ p. lower x ∷ (lower y ∷ (p ∷ map lower s))) (sym (ap lower ec)),
        omega (arith, size),
      ),
    )
scan_octets-Scanned zero [] p = absurd p
scan_octets-Scanned zero (x ∷ []) p = absurd p
scan_octets-Scanned zero (x ∷ (y ∷ (z ∷ s))) p = absurd p
scan_octets-Scanned (suc j) [] p = absurd p
scan_octets-Scanned (suc j) (x ∷ []) p = absurd p
scan_octets-Scanned (suc j) (x ∷ (y ∷ [])) p = absurd p

-- `parse_macaddr` accepts six pairs of hexadecimal digits with colons between them, and reads
-- every octet: what is printed of the six octets is the string in lower case.
pub parse_macaddr-Pairs :
    (s : Bytes)
    → Pairs 5 s
    → (addr : Bytes) × (parse_macaddr s ≡ returns (some addr))
      × (length addr ≡ 6)
      × (print_mac addr ≡ map lower s)
unfolding parse_macaddr
parse_macaddr-Pairs s p =
    let (ns, scanned, (same, size)) = scan_octets-Scanned 5 s p in
    (
      map (λ o. o % 256) ns,
      rw (length-Pairs 5 s p, count-Pairs 5 0 s p, well_formed-Pairs s p, scanned) refl,
      length-map ns ∙ size,
      same,
    )
