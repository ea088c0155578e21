-- ===== src/Cv/Uuid/RoundTrip.antt =====
-- Printing a uuid and reading the text.
use cligen.Prelude.{
  ℕ, zero, suc, ◌+◌, ◌*◌, ◌/◌, ◌%◌, ◌≤◌, ◌<◌, ◌≡◌, refl, ap, ◌∙◌, sym, arith, some, [], ◌∷◌, ◌++◌,
  length, take, drop, length-append, length-take, length-drop, take_all, append-nil,
}
use cligen.Memory.{Bytes}
use cligen.Cv.Hex.{toint, hex, hex_digit, AllBytes, toint-hex_digit}
use cligen.Cv.Uuid.{text, uuid2str, octet, octets, dashed, groups, str2uuid}

pub octets_step :
    (k x y : ℕ) (s : Bytes) → octets (suc k) (x ∷ y ∷ s) ≡ octet (toint x) (toint y) (octets k s)
unfolding octets
octets_step k x y s = refl

octets_zero : (s : Bytes) → octets 0 s ≡ some ([], s)
unfolding octets
octets_zero s = refl

octets-hex : (us r : Bytes) → AllBytes us → octets (length us) (hex us ++ r) ≡ some (us, r)
unfolding hex
octets-hex [] r h = octets_zero r
octets-hex (u ∷ us) r h =
    rw
      (
        octets_step (length us) (hex_digit (u % 256 / 16)) (hex_digit (u % 16)) (hex us ++ r),
        toint-hex_digit (u % 256 / 16) (omega arith),
        toint-hex_digit (u % 16) (omega arith),
        octets-hex us r h.1,
        same u h.0,
      )
      refl
  where
    same : (u : ℕ) → u < 256 → u % 256 / 16 * 16 + u % 16 ≡ u
    same u h = omega arith

length-hex : (us : Bytes) → length (hex us) ≡ length us + length us
unfolding hex
length-hex [] = refl
length-hex (u ∷ us) = omega (arith, length-hex us)

AllBytes-take : (n : ℕ) (us : Bytes) → AllBytes us → AllBytes (take n us)
AllBytes-take zero us h = tt
AllBytes-take (suc n) [] h = tt
AllBytes-take (suc n) (u ∷ us) h = (h.0, AllBytes-take n us h.1)

AllBytes-drop : (n : ℕ) (us : Bytes) → AllBytes us → AllBytes (drop n us)
AllBytes-drop zero us h = h
AllBytes-drop (suc n) [] h = tt
AllBytes-drop (suc n) (u ∷ us) h = AllBytes-drop n us h.1

take-drop : (n : ℕ) (us : Bytes) → take n us ++ drop n us ≡ us
take-drop zero us = refl
take-drop (suc n) [] = refl
take-drop (suc n) (u ∷ us) = ap (λ t. u ∷ t) (take-drop n us)

-- A group of `k` bytes, at the head of the string or behind a dash.
octets-group :
    (k : ℕ) (us r : Bytes)
    → AllBytes us
    → k ≤ length us
    → octets k (hex (take k us) ++ r) ≡ some (take k us, r)
octets-group k us r h le =
    ap (λ n. octets n (hex (take k us) ++ r)) (omega (arith, length-take k us))
    ∙ octets-hex (take k us) r (AllBytes-take k us h)

dashed-group :
    (k : ℕ) (us r : Bytes)
    → AllBytes us
    → k ≤ length us
    → dashed k (b'-' ∷ (hex (take k us) ++ r)) ≡ some (take k us, r)
unfolding dashed
dashed-group k us r h le = octets-group k us r h le

module _ (u : Bytes) (size : length u ≡ 16) (bytes : AllBytes u) where
  abbrev u1 : Bytes
  u1 = drop 4 u

  abbrev u2 : Bytes
  u2 = drop 2 u1

  abbrev u3 : Bytes
  u3 = drop 2 u2

  abbrev u4 : Bytes
  u4 = drop 2 u3

  length-groups : (length u1 ≡ 12) × (length u2 ≡ 10) × (length u3 ≡ 8) × (length u4 ≡ 6)
  length-groups =
      omega (arith, length-drop 4 u, length-drop 2 u1, length-drop 2 u2, length-drop 2 u3)

  dashed-last :
      (us : Bytes)
      → AllBytes us
      → 6 ≤ length us
      → dashed 6 (b'-' ∷ hex (take 6 us)) ≡ some (take 6 us, [])
  dashed-last us h le =
      ap (λ t. dashed 6 (b'-' ∷ t)) (sym (append-nil (hex (take 6 us)))) ∙ dashed-group 6 us [] h le

  groups-text : groups (text u) ≡ some (u, [])
  unfolding groups
  groups-text =
      rw
        (
          octets-group 4 u _ bytes (omega arith),
          dashed-group 2 u1 _ bytes1 (omega (arith, length-groups)),
          dashed-group 2 u2 _ bytes2 (omega (arith, length-groups)),
          dashed-group 2 u3 _ bytes3 (omega (arith, length-groups)),
          dashed-last u4 (AllBytes-drop 2 u3 bytes3) (omega (arith, length-groups)),
        )
        (ap (λ v. some (v, [])) whole)
    where
      bytes1 : AllBytes u1
      bytes1 = AllBytes-drop 4 u bytes

      bytes2 : AllBytes u2
      bytes2 = AllBytes-drop 2 u1 bytes1

      bytes3 : AllBytes u3
      bytes3 = AllBytes-drop 2 u2 bytes2

      whole : take 4 u ++ (take 2 u1 ++ (take 2 u2 ++ (take 2 u3 ++ take 6 u4))) ≡ u
      whole =
          ap (λ t. take 4 u ++ (take 2 u1 ++ (take 2 u2 ++ (take 2 u3 ++ t))))
            (take_all u4 6 (omega (arith, length-groups)))
          ∙ ap (λ t. take 4 u ++ (take 2 u1 ++ (take 2 u2 ++ t))) (take-drop 2 u3)
          ∙ ap (λ t. take 4 u ++ (take 2 u1 ++ t)) (take-drop 2 u2)
          ∙ ap (λ t. take 4 u ++ t) (take-drop 2 u1)
          ∙ take-drop 4 u

  length-text : length (text u) ≡ 36
  length-text = omega (
    arith,
    length-groups,
    length-append (hex (take 4 u)) (
        b'-'
        ∷ (hex (take 2 u1)
            ++ (b'-'
                ∷ (hex (take 2 u2) ++ (b'-' ∷ (hex (take 2 u3) ++ (b'-' ∷ hex (take 6 u4)))))))),
    length-append (hex (take 2 u1))
        (b'-' ∷ (hex (take 2 u2) ++ (b'-' ∷ (hex (take 2 u3) ++ (b'-' ∷ hex (take 6 u4)))))),
    length-append (hex (take 2 u2)) (b'-' ∷ (hex (take 2 u3) ++ (b'-' ∷ hex (take 6 u4)))),
    length-append (hex (take 2 u3)) (b'-' ∷ hex (take 6 u4)),
    length-hex (take 4 u),
    length-hex (take 2 u1),
    length-hex (take 2 u2),
    length-hex (take 2 u3),
    length-hex (take 6 u4),
    length-take 4 u,
    length-take 2 u1,
    length-take 2 u2,
    length-take 2 u3,
    length-take 6 u4,
  )

  -- A uuid is read back from the text that is printed of it.
  pub str2uuid-uuid2str : str2uuid (uuid2str u 37) ≡ some u
  unfolding uuid2str str2uuid
  str2uuid-uuid2str =
      rw (take_all (text u) 36 (omega (arith, length-text)), length-text, groups-text) refl
