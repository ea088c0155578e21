-- ===== src/Cv/Uuid/Sound.antt =====
-- Reading a uuid and printing it again.
use cligen.Prelude.{
  ℕ, zero, suc, ◌+◌, ◌*◌, ◌/◌, ◌%◌, ◌<◌, ◌≡◌, refl, ap, ap₂, ◌∙◌, sym, arith, Bool, true, false,
  Option, none, some, [], ◌∷◌, ◌++◌, ◌==◌, map, length, take, drop, length-append, take_all,
  append-nil, if◌then◌else◌, Bool-cases, inl, inr,
}
use cligen.Memory.{Bytes}
use cligen.Cv.Hex.{toint, hex, hex_digit, hex_digit-toint, lower}
use cligen.Cv.Uuid.{text, uuid2str, and_then, octet, octets, dashed, groups, at_end, str2uuid}
use cligen.Cv.Uuid.RoundTrip.{octets_step}

octet-some :
    (x y : Option ℕ) (o : Option (Bytes × Bytes)) (us r : Bytes)
    → octet x y o ≡ some (us, r)
    → (a : ℕ) × (b : ℕ) × (vs : Bytes) × (x ≡ some a)
      × (y ≡ some b)
      × (o ≡ some (vs, r))
      × ((a * 16 + b) ∷ vs ≡ us)
octet-some (some a) (some b) (some (vs, q)) us r e =
    (a, b, vs, refl, refl, ground arith, ground arith)
octet-some (some a) (some b) none us r e = cc e
octet-some (some a) none o us r e = cc e
octet-some none y o us r e = cc e

abbrev Read : ℕ → Bytes → Bytes → Bytes → Type 0
Read k s us r = (map lower s ≡ hex us ++ map lower r) × (length us ≡ k)

hex-cons :
    (a b x y : ℕ) (us : Bytes)
    → a < 16
    → b < 16
    → hex_digit a ≡ x
    → hex_digit b ≡ y
    → hex ((a * 16 + b) ∷ us) ≡ x ∷ y ∷ hex us
unfolding hex
hex-cons a b x y us ha hb ex ey =
    ap₂ (λ p q. p ∷ q ∷ hex us) (ap hex_digit (high a b ha hb) ∙ ex)
      (ap hex_digit (low a b hb) ∙ ey)
  where
    high : (a b : ℕ) → a < 16 → b < 16 → (a * 16 + b) % 256 / 16 ≡ a
    high a b ha hb = omega arith

    low : (a b : ℕ) → b < 16 → (a * 16 + b) % 16 ≡ b
    low a b hb = omega arith

octets-Read : (k : ℕ) (s us r : Bytes) → octets k s ≡ some (us, r) → Read k s us r
unfolding octets hex
octets-Read zero s us r e =
    let eu : [] ≡ us = ground arith in
    let er : s ≡ r = ground arith in
    (
      ap (λ t. map lower t) er ∙ ap (λ (t : Bytes). hex t ++ map lower r) eu,
      ap (λ (t : Bytes). length t) (sym eu),
    )
octets-Read (suc k) [] us r e = cc e
octets-Read (suc k) (x ∷ []) us r e = cc e
octets-Read (suc k) (x ∷ y ∷ s) us r e =
    let (a, b, vs, ex, ey, eo, eu) =
      octet-some (toint x) (toint y) (octets k s) us r (sym (octets_step k x y s) ∙ e) in
    let (same, size) = octets-Read k s vs r eo in
    let (dx, la) = hex_digit-toint x a ex in
    let (dy, lb) = hex_digit-toint y b ey in
    (
      ap (λ t. lower x ∷ lower y ∷ t) same
          ∙ ap (λ t. t ++ map lower r)
              (sym (hex-cons a b (lower x) (lower y) vs la lb dx dy) ∙ ap hex eu),
      ap (λ (t : Bytes). length t) (sym eu) ∙ ap suc size,
    )

abbrev Dashed : ℕ → Bytes → Bytes → Bytes → Type 0
Dashed k s us r = (map lower s ≡ b'-' ∷ (hex us ++ map lower r)) × (length us ≡ k)

dashed-Read : (k : ℕ) (s us r : Bytes) → dashed k s ≡ some (us, r) → Dashed k s us r
unfolding dashed
dashed-Read k [] us r e = cc e
dashed-Read k (c ∷ s) us r e = elim (Bool-cases (c == b'-')) [
  | inl dash ↦
      let (same, size) = octets-Read k s us r (sym (chosen true dash) ∙ e) in
      (ap₂ (λ p t. p ∷ t) (is_dash c dash) same, size)
  | inr other ↦ cc (sym (chosen false other) ∙ e)
]
  where
    chosen :
        (b : Bool)
        → (c == b'-') ≡ b
        → (if c == b'-' then octets k s else none) ≡ (if b then octets k s else none)
    chosen b t = ap (λ b. if b then octets k s else none) t

    is_dash : (c : ℕ) → (c == b'-') ≡ true → lower c ≡ b'-'
    is_dash c t = ground arith

and_then-some :
    (o : Option (Bytes × Bytes)) (f : Bytes → Bytes → Option (Bytes × Bytes)) (x : Bytes × Bytes)
    → and_then o f ≡ some x
    → (a : Bytes) × (b : Bytes) × (o ≡ some (a, b)) × (f a b ≡ some x)
and_then-some none f x e = cc e
and_then-some (some (a, b)) f x e = (a, b, refl, e)

take-group : (n : ℕ) (a b : Bytes) → length a ≡ n → (take n (a ++ b) ≡ a) × (drop n (a ++ b) ≡ b)
take-group zero [] b e = (refl, refl)
take-group zero (x ∷ a) b e = absurd (omega arith)
take-group (suc n) [] b e = absurd (omega arith)
take-group (suc n) (x ∷ a) b e =
    let (t, d) = take-group n a b (omega arith) in (ap (λ t. x ∷ t) t, d)

-- The text of five groups put together.
text-groups :
    (a b c d e : Bytes)
    → length a ≡ 4
    → length b ≡ 2
    → length c ≡ 2
    → length d ≡ 2
    → length e ≡ 6
    → text (a ++ (b ++ (c ++ (d ++ e))))
      ≡ hex a ++ (b'-' ∷ (hex b ++ (b'-' ∷ (hex c ++ (b'-' ∷ (hex d ++ (b'-' ∷ hex e)))))))
text-groups a b c d e la lb lc ld le =
    let (ta, da) = take-group 4 a (b ++ (c ++ (d ++ e))) la in
    let (tb, db) = take-group 2 b (c ++ (d ++ e)) lb in
    let (tc, dc) = take-group 2 c (d ++ e) lc in
    let (td, dd) = take-group 2 d e ld in
    rw (ta, da, tb, db, tc, dc, td, dd, take_all e 6 (omega arith)) refl

-- The five groups that were read, put together.
parts-text :
    (s s1 s2 s3 s4 s5 a b c d e u : Bytes)
    → Read 4 s a s1
    → Dashed 2 s1 b s2
    → Dashed 2 s2 c s3
    → Dashed 2 s3 d s4
    → Dashed 6 s4 e s5
    → a ++ (b ++ (c ++ (d ++ e))) ≡ u
    → [] ≡ s5
    → (text u ≡ map lower s) × (length u ≡ 16)
parts-text s s1 s2 s3 s4 s5 a b c d e u (ra, la) (rb, lb) (rc, lc) (rd, ld) (re, le) eu es = (
  rw (← eu, ra, rb, rc, rd, re, ← es)
      (text-groups a b c d e la lb lc ld le
        ∙ ap (λ t. hex a ++ (b'-' ∷ (hex b ++ (b'-' ∷ (hex c ++ (b'-' ∷ (hex d ++ (b'-' ∷ t))))))))
            (sym (append-nil (hex e)))),
  omega (
    arith,
    ap (λ (t : Bytes). length t) eu,
    length-append a (b ++ (c ++ (d ++ e))),
    length-append b (c ++ (d ++ e)),
    length-append c (d ++ e),
    length-append d e,
  ),
)

groups-text :
    (s u r : Bytes) → groups s ≡ some (u, r) → [] ≡ r → (text u ≡ map lower s) × (length u ≡ 16)
unfolding groups
groups-text s u r q end =
    let (a, s1, qa, q1) = and_then-some (octets 4 s) _ (u, r) q in
    let (b, s2, qb, q2) = and_then-some (dashed 2 s1) _ (u, r) q1 in
    let (c, s3, qc, q3) = and_then-some (dashed 2 s2) _ (u, r) q2 in
    let (d, s4, qd, q4) = and_then-some (dashed 2 s3) _ (u, r) q3 in
    let (e, s5, qe, q5) = and_then-some (dashed 6 s4) _ (u, r) q4 in
    let (eu, er) = pair_eq _ u s5 r q5 in
    parts-text s s1 s2 s3 s4 s5 a b c d e u (octets-Read 4 s a s1 qa) (dashed-Read 2 s1 b s2 qb)
      (dashed-Read 2 s2 c s3 qc) (dashed-Read 2 s3 d s4 qd) (dashed-Read 6 s4 e s5 qe) eu
      (end ∙ sym er)
  where
    pair_eq :
        (x u y r : Bytes)
        → ◌≡◌ {A = Option (Bytes × Bytes)} (some (x, y)) (some (u, r))
        → (x ≡ u) × (y ≡ r)
    pair_eq x u y r h = (ground arith, ground arith)

at_end-some :
    (o : Option (Bytes × Bytes)) (u : Bytes)
    → at_end o ≡ some u
    → ◌≡◌ {A = Option (Bytes × Bytes)} o (some (u, []))
at_end-some none u e = cc e
at_end-some (some (x, [])) u e = ground arith
at_end-some (some (x, c ∷ r)) u e = refused (sym (test r) ∙ e)
  where
    test : (r : Bytes) → (if suc (length r) == 0 then some x else none) ≡ none
    test r = ground arith

    refused : none ≡ some u → ◌≡◌ {A = Option (Bytes × Bytes)} (some (x, c ∷ r)) (some (u, []))
    refused h = cc h

-- Every string that `str2uuid` accepts is the text of a uuid of 16 bytes, in upper or lower case:
-- printing the uuid gives the string in lower case.
pub uuid2str-str2uuid :
    (s u : Bytes) → str2uuid s ≡ some u → (uuid2str u 37 ≡ map lower s) × (length u ≡ 16)
unfolding str2uuid uuid2str
uuid2str-str2uuid s u h = elim (Bool-cases (length s == 36)) [
  | inl exact ↦
      let (same, size) =
        groups-text s u [] (at_end-some (groups s) u (sym (chosen exact) ∙ h)) refl in
      (
        take_all (text u) 36
              (omega (arith, ap (λ (t : Bytes). length t) same, length-map s, is36 exact))
            ∙ same,
        size,
      )
  | inr other ↦ cc (sym (chosen other) ∙ h)
]
  where
    chosen :
        {b : Bool}
        → (length s == 36) ≡ b
        → (if length s == 36 then at_end (groups s) else none)
          ≡ (if b then at_end (groups s) else none)
    chosen t = ap (λ b. if b then at_end (groups s) else none) t

    is36 : (length s == 36) ≡ true → length s ≡ 36
    is36 t = ground arith

    length-map : (s : Bytes) → length (map lower s) ≡ length s
    length-map [] = refl
    length-map (c ∷ s) = ap suc (length-map s)
