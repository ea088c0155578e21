-- ===== src/Token/Step.antt =====
-- One round of `cligen_str2cvv`.
use cligen.Prelude.{
  ℕ, suc, ◌+◌, ◌≤◌, ◌<◌, ◌≡◌, refl, ap, ◌∙◌, arith, Bool, true, false, ◌&&◌, Option, none, some, [],
  ◌∷◌, ◌==◌, ltb, length, take, drop, length-take, length-drop, if◌then◌else◌, Bool-cases, inl, inr,
  Outcome, returns, fault,
}
use cligen.Memory.{int_max, Bytes, Machine, Status, ok, failed}
use cligen.Token.{
  skip_delimiters, is_delimiter, is_quote, starts_with, span_plain, cut_token, made, Token,
  next_token, Vectors, put, split_from,
}

-- A refusal, a last round without a token, or a token and a shorter string.
abbrev pub Advanced : Machine → ℕ → Status × Token → Type 0
Advanced m n (failed, t) = (k : ℕ) × (m.grants k ≡ false)
Advanced m n (ok, t) = elim t.after [
  | none ↦ t.token ≡ none
  | some rest ↦ (length rest < n) × (token : Bytes) × (t.token ≡ some token)
]

length-skip : (s : Bytes) → (skip_delimiters s).0 + length (skip_delimiters s).1 ≡ length s
unfolding skip_delimiters
length-skip [] = refl
length-skip (c ∷ cs) = ground (arith, length-skip cs)

skip_starts : (s : Bytes) → starts_with is_delimiter (skip_delimiters s).1 ≡ false
unfolding skip_delimiters
skip_starts [] = refl
skip_starts (c ∷ cs) = ground (arith, skip_starts cs)

span_plain_le : (e : Bool) (s : Bytes) → span_plain e s ≤ length s
unfolding span_plain
span_plain_le true [] = omega arith
span_plain_le false [] = omega arith
span_plain_le true (c ∷ cs) = omega (arith, span_plain_le false cs)
span_plain_le false (c ∷ cs) = ground (arith, span_plain_le false cs, span_plain_le true cs)

made-Advanced :
    (m : Machine) (leading : ℕ) (rest token s : Bytes) (k : ℕ)
    → length s < k
    → Advanced m k (made m leading rest token s)
unfolding made
made-Advanced m leading rest token s k h = elim (Bool-cases (m.grants (length token + 1))) [
  | inl given ↦ rw given (h, token, refl)
  | inr refused ↦ rw refused (length token + 1, refused)
]

length-drop_less : (n : ℕ) (s : Bytes) → n < length s → length (drop (n + 1) s) < length s
length-drop_less n s h = omega (arith, length-drop (n + 1) s)

cut_quoted-Advanced :
    (m : Machine) (leading : ℕ) (rest st : Bytes) (n k : ℕ)
    → length st < k
    → Advanced m k (cut_token m leading rest true st n)
unfolding cut_token
cut_quoted-Advanced m leading rest st n k h = elim (Bool-cases (ltb n (length st))) [
  | inl closed ↦ rw closed (
      made-Advanced m leading rest (take n st) (drop (n + 1) st) k
        (omega (arith, length-drop (n + 1) st)))
  | inr unclosed ↦
      rw (unclosed, (let e : (suc (length (take n st)) == 0) ≡ false = ground arith in e))
        (made-Advanced m leading rest (b'"' ∷ take n st) (drop n st) k
          (omega (arith, length-drop n st)))
]

cut_plain-Advanced :
    (m : Machine) (leading : ℕ) (rest st : Bytes) (n k : ℕ)
    → length st ≤ k
    → Advanced m k (cut_token m leading rest false st n)
unfolding cut_token
cut_plain-Advanced m leading rest st n k h = elim (Bool-cases (length (take n st) == 0)) [
  | inl nothing ↦ rw nothing refl
  | inr something ↦
      rw something (made-Advanced m leading rest (take n st) (drop n st) k (shorter something))
]
  where
    shorter : (length (take n st) == 0) ≡ false → length (drop n st) < k
    shorter t = ground (arith, length-drop n st, length-take n st)

-- Each round of `cligen_str2cvv` but the last leaves a shorter string.
pub next_token-Advanced : (m : Machine) (s : Bytes) → Advanced m (length s) (next_token m s)
unfolding next_token
next_token-Advanced m s = elim (Bool-cases (starts_with is_quote (skip_delimiters s).1)) [
  | inl quote ↦ rw quote (
      cut_quoted-Advanced m _ (skip_delimiters s).1 (drop 1 (skip_delimiters s).1) _ (length s) (
        omega (
          arith,
          length-skip s,
          length-drop 1 (skip_delimiters s).1,
          starts-length is_quote (skip_delimiters s).1 quote,
        )))
  | inr plain ↦ rw plain (
      cut_plain-Advanced m _ (skip_delimiters s).1 (skip_delimiters s).1 _ (length s)
        (omega (arith, length-skip s)))
]
  where
    starts-length : (p : ℕ → Bool) (t : Bytes) → starts_with p t ≡ true → 0 < length t
    starts-length p [] e = cc e
    starts-length p (c ∷ t) e = omega arith

leading-cut :
    (m : Machine) (leading : ℕ) (rest : Bytes) (quote : Bool) (st : Bytes) (n : ℕ)
    → (cut_token m leading rest quote st n).1.leading ≡ leading
unfolding cut_token made
leading-cut m leading rest true st n = ground arith
leading-cut m leading rest false st n = ground arith

-- `next_token` does not count more delimiters than there are bytes.
pub leading-next_token : (m : Machine) (s : Bytes) → (next_token m s).1.leading ≤ length s
unfolding next_token
leading-next_token m s = elim (Bool-cases (starts_with is_quote (skip_delimiters s).1)) [
  | inl quote ↦
      rw quote (omega (arith, length-skip s, leading-cut m _ (skip_delimiters s).1 true _ _))
  | inr plain ↦
      rw plain (omega (arith, length-skip s, leading-cut m _ (skip_delimiters s).1 false _ _))
]

-- A round of the loop that finds a token, and the last round.
pub split_from_token :
    (m : Machine) (fuel i : ℕ) (s : Bytes) (v : Vectors) (t : Token) (token : Bytes)
    → next_token m s ≡ (ok, t)
    → t.token ≡ some token
    → t.leading ≤ int_max
    → i < int_max
    → split_from m (suc fuel) i (some s) v ≡ split_from m fuel (i + 1) t.after (put v t)
unfolding split_from
split_from_token m fuel i s v t token e f few more = ap round e ∙ counts ∙ ap found f ∙ goes_on
  where
    on : Token → Outcome (Status × Vectors)
    on t = if ltb i int_max then split_from m fuel (i + 1) t.after (put v t) else fault

    found : Option Bytes → Outcome (Status × Vectors)
    found token = elim token [
      | none ↦ if t.leading == 0 && ltb 0 i then returns (ok, v) else on t
      | some token ↦ on t
    ]

    round : Status × Token → Outcome (Status × Vectors)
    round (status, t) = if ltb int_max t.leading then fault else elim status [
      | failed ↦ returns (failed, v)
      | ok ↦ elim t.token [
        | none ↦ if t.leading == 0 && ltb 0 i then returns (ok, v) else on t
        | some token ↦ on t
      ]
    ]

    goes_on : on t ≡ split_from m fuel (i + 1) t.after (put v t)
    goes_on = rw (let e : ltb i int_max ≡ true = ground arith in e) refl

    counts : round (ok, t) ≡ found t.token
    counts = rw (let e : ltb int_max t.leading ≡ false = ground arith in e) refl

pub split_from_end :
    (m : Machine) (fuel i : ℕ) (v : Vectors)
    → split_from m (suc fuel) (i + 1) (some []) v ≡ returns (ok, v)
unfolding split_from next_token skip_delimiters cut_token span_plain
split_from_end m fuel i v = rw (later i) refl
  where
    later : (i : ℕ) → ltb 0 (i + 1) ≡ true
    later i = ground arith
