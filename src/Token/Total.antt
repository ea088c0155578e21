-- ===== src/Token/Total.antt =====
-- All rounds of `cligen_str2cvv`.
use cligen.Prelude.{
  ℕ, zero, suc, ◌+◌, ◌≤◌, ◌<◌, ◌≡◌, refl, subst, arith, true, false, ◌&&◌, Option, none, some, [],
  ◌∷◌, ◌==◌, ltb, length, length-append, if◌then◌else◌, Bool-cases, Option-cases, inl, inr, returns,
  Returns, Returns-mono, Outcome, fault,
}
use cligen.Memory.{int_max, Bytes, Machine, Status, ok, failed}
use cligen.Token.{Token, next_token, Vectors, put, or_empty, split_from, str2cvv}
use cligen.Token.Step.{Advanced, next_token-Advanced, leading-next_token}

-- A refusal, or two vectors of the same length, which is at least `n`.
abbrev pub Paired : Machine → ℕ → Status × Vectors → Type 0
Paired m n (failed, v) = (k : ℕ) × (m.grants k ≡ false)
Paired m n (ok, v) = (length v.tokens ≡ length v.rests) × (n ≤ length v.tokens)

Paired-mono : (m : Machine) (n k : ℕ) → n ≤ k → (r : Status × Vectors) → Paired m k r → Paired m n r
Paired-mono m n k h (failed, v) p = p
Paired-mono m n k h (ok, v) p = (p.0, omega arith)

abbrev size : Option Bytes → ℕ
size none = 0
size (some s) = length s + 1

short_after :
    (m : Machine) (n : ℕ) (t : Token) (fuel : ℕ)
    → Advanced m n (ok, t)
    → n + 1 ≤ fuel
    → size t.after < fuel
short_after m n t fuel a h = elim (Option-cases t.after) [
  | inl ended ↦ rw ended (omega arith)
  | inr (rest, left) ↦ rw left (less left)
]
  where
    less : {rest : Bytes} → t.after ≡ some rest → length rest + 1 < fuel
    less left = omega (
      arith,
      (subst
          (λ o. elim o [
            | none ↦ t.token ≡ none
            | some rest ↦ (length rest < n) × (token : Bytes) × (t.token ≡ some token)
          ])
          left a).0,
    )

module _ (m : Machine) (fuel i : ℕ) (s : Bytes) (v : Vectors) (k : ℕ)
    (counts : i + length s < int_max)
    (rest : (t : Token)
      → size t.after ≤ length s
      → Returns (split_from m fuel (i + 1) t.after (put v t)) (Paired m k))
    (last : 0 < i → Paired m k (ok, v)) where
  -- One round of the loop, from what holds of the others.
  round-Paired : Returns (split_from m (suc fuel) i (some s) v) (Paired m k)
  unfolding split_from
  round-Paired = round (next_token m s) (next_token-Advanced m s) (leading-next_token m s)
    where
      on : Token → Outcome (Status × Vectors)
      on t = if ltb i int_max then split_from m fuel (i + 1) t.after (put v t) else fault

      an_int : ltb i int_max ≡ true
      an_int = ground (arith, counts)

      few_counted : (t : Token) → t.leading ≤ length s → ltb int_max t.leading ≡ false
      few_counted t few = ground (arith, counts, few)

      shorter : (t : Token) → Advanced m (length s) (ok, t) → size t.after ≤ length s
      shorter t a = omega (arith, short_after m (length s) t (length s + 1) a (omega arith))

      round :
          (r : Status × Token)
          → Advanced m (length s) r
          → r.1.leading ≤ length s
          → Returns
              (if ltb int_max r.1.leading then fault else elim r.0 [
                | failed ↦ returns (failed, v)
                | ok ↦ elim r.1.token [
                  | none ↦ if r.1.leading == 0 && ltb 0 i then returns (ok, v) else on r.1
                  | some token ↦ on r.1
                ]
              ])
              (Paired m k)
      round (failed, t) a few = rw (few_counted t few, Returns) a
      round (ok, t) a few = elim (Option-cases t.token) [
        | inr (token, found) ↦ rw (few_counted t few, found, an_int) (rest t (shorter t a))
        | inl nothing ↦ elim (Bool-cases (t.leading == 0 && ltb 0 i)) [
          | inl ends ↦ rw (few_counted t few, nothing, ends, Returns) (last (ground arith))
          | inr goes_on ↦ rw (few_counted t few, nothing, goes_on, an_int) (rest t (shorter t a))
        ]
      ]

length-put :
    (v : Vectors) (t : Token)
    → (length (put v t).tokens ≡ length v.tokens + 1)
      × (length (put v t).rests ≡ length v.rests + 1)
length-put v t = (
  omega (arith, length-append v.tokens (or_empty t.token ∷ [])),
  omega (arith, length-append v.rests (t.rest ∷ [])),
)

split_from-Paired :
    (m : Machine) (fuel i : ℕ) (s : Option Bytes) (v : Vectors)
    → size s < fuel
    → i + size s ≤ int_max
    → length v.tokens ≡ length v.rests
    → Returns (split_from m fuel i s v) (Paired m (length v.tokens))
split_from-Paired m zero i s v h counts e = absurd (omega arith)
split_from-Paired m (suc fuel) i none v h counts e = unfold split_from in (e, omega arith)
split_from-Paired m (suc fuel) i (some s) v h counts e =
    round-Paired m fuel i s v (length v.tokens) (omega arith)
      (λ t short.
        Returns-mono _ (Paired m (length (put v t).tokens)) _
          (split_from-Paired m fuel (i + 1) t.after (put v t) (omega arith) (omega arith)
            (omega (arith, length-put v t)))
          (Paired-mono m (length v.tokens) (length (put v t).tokens)
            (omega (arith, length-put v t))))
      (λ later. (e, omega arith))

-- From any string shorter than INT_MAX `cligen_str2cvv` returns. Unless memory is refused, there are as many rests as
-- tokens, and a token besides the whole string, if only an empty one.
pub str2cvv-Paired :
    (m : Machine) (string : Bytes)
    → length string < int_max
    → Returns (str2cvv m string) (Paired m 2)
unfolding str2cvv
str2cvv-Paired m string small = elim (Bool-cases (m.grants (length string + 1))) [
  | inl given ↦
      rw (given, add3 (length string))
        (round-Paired m (length string + 2) 0 string
          (record { tokens = string ∷ []; rests = string ∷ [] }) 2 (omega arith)
          (λ t short.
            split_from-Paired m (length string + 2) (0 + 1) t.after
              (put (record { tokens = string ∷ []; rests = string ∷ [] }) t) (omega arith)
              (omega (arith, small)) refl)
          (λ later. absurd (omega arith)))
  | inr refused ↦ rw (refused, Returns) (length string + 1, refused)
]
  where
    add3 : (n : ℕ) → n + 3 ≡ suc (n + 2)
    add3 n = omega arith
