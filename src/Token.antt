-- ===== src/Token.antt =====
-- cligen_cvec.c: a command string is split into its words.
mod Step
mod Total
pub mod Words
mod Quoted
mod Tests
use cligen.Prelude.{
  ℕ, zero, suc, ◌+◌, ◌-◌, Bool, true, false, not, ◌||◌, ◌&&◌, Option, none, some, List, [], ◌∷◌,
  ◌++◌, ◌==◌, ltb, length, take, drop, if◌then◌else◌, Outcome, returns, fault, diverges, ◌>>=◌,
}
use cligen.Memory.{int_max, Bytes, Machine, Status, ok, failed}

-- CLIGEN_DELIMITERS, CLIGEN_QUOTES and CLIGEN_OPERATORS.
abbrev pub is_delimiter : ℕ → Bool
is_delimiter c = c == b' ' || c == b'\t'

abbrev pub is_quote : ℕ → Bool
is_quote c = c == b'"'

abbrev pub is_operator : ℕ → Bool
is_operator c = c == b'|'

-- The first loop of `next_token`: `leading`, and the string behind the delimiters.
pub skip_delimiters : Bytes → ℕ × Bytes
skip_delimiters [] = (0, [])
skip_delimiters (c ∷ cs) =
    let rest = skip_delimiters cs in if is_delimiter c then (rest.0 + 1, rest.1) else (0, c ∷ cs)

-- The loop that finds the token, in quotes: how many bytes it passes.
pub span_quoted : Bytes → ℕ
span_quoted [] = 0
span_quoted (c ∷ cs) = if is_quote c then 0 else span_quoted cs + 1

-- The same without quotes; a backslash takes its meaning from the character behind it.
pub span_plain : Bool → Bytes → ℕ
span_plain escape [] = 0
span_plain true (c ∷ cs) = span_plain false cs + 1
span_plain false (c ∷ cs) =
    if c == b'\\'
    then span_plain true cs + 1
    else if is_delimiter c || is_operator c
    then 0
    else span_plain false cs + 1

abbrev pub starts_with : (ℕ → Bool) → Bytes → Bool
starts_with p [] = false
starts_with p (c ∷ cs) = p c

-- What `next_token` sets: `*s0` and the token, `none` for a null pointer, `*rest0` and `leading`.
pub record Token : Type 0 where
  pub after : Option Bytes
  pub token : Option Bytes
  pub rest : Bytes
  pub leading : ℕ

-- The bytes between `st` and `s`.
abbrev span : Bool → Bytes → ℕ
span quote st =
    if starts_with is_operator st then 1 else if quote then span_quoted st else span_plain false st

-- The copy of the token, whose allocation may fail; `s` is what is left of the string.
pub made : Machine → ℕ → Bytes → Bytes → Bytes → Status × Token
made m leading rest token s =
    if m.grants (length token + 1)
    then (ok, record { after = some s; token = some token; rest = rest; leading = leading })
    else (failed, record { after = some rest; token = none; rest = rest; leading = leading })

-- The token starts at `st`, behind the quote if there is one, and `n` bytes are passed. Without a
-- closing quote the opening one is a part of the token.
pub cut_token : Machine → ℕ → Bytes → Bool → Bytes → ℕ → Status × Token
cut_token m leading rest quote st n =
    let token = if quote then b'"' ∷ take n st else take n st in
    if quote && ltb n (length st)
    then made m leading rest (take n st) (drop (n + 1) st)
    else if length token == 0
    then (ok, record { after = none; token = none; rest = rest; leading = leading })
    else made m leading rest token (drop n st)

-- `next_token`, from a string that is not a null pointer.
pub next_token : Machine → Bytes → Status × Token
next_token m s0 =
    let (leading, rest) = skip_delimiters s0 in
    if starts_with is_quote rest
    then cut_token m leading rest true (drop 1 rest) (span true (drop 1 rest))
    else cut_token m leading rest false rest (span false rest)

-- The two vectors, of tokens and of what remained at each token.
pub record Vectors : Type 0 where
  pub tokens : List Bytes
  pub rests : List Bytes

abbrev pub or_empty : Option Bytes → Bytes
or_empty none = []
or_empty (some t) = t

abbrev pub put : Vectors → Token → Vectors
put v t = record { tokens = v.tokens ++ (or_empty t.token ∷ []); rests = v.rests ++ (t.rest ∷ []) }

-- The loop of `cligen_str2cvv`. `i` and the count of delimiters in `next_token` are ints, whose
-- overflow is undefined. Each round but the last takes a byte of the string, so a round more
-- than it has bytes is enough fuel.
pub split_from : Machine → ℕ → ℕ → Option Bytes → Vectors → Outcome (Status × Vectors)
split_from m zero i s v = diverges
split_from m (suc fuel) i none v = returns (ok, v)
split_from m (suc fuel) i (some s) v =
    let (status, t) = next_token m s in
    let rest = split_from m fuel (i + 1) t.after (put v t) in
    let on = if ltb i int_max then rest else fault in
    if ltb int_max t.leading then fault else elim status [
      | failed ↦ returns (failed, v)
      | ok ↦ elim t.token [
        | none ↦ if t.leading == 0 && ltb 0 i then returns (ok, v) else on
        | some token ↦ on
      ]
    ]

-- `cligen_str2cvv`. The first element of each vector is the whole string. The vectors' own memory is
-- granted; after a failure they are not handed out.
pub str2cvv : Machine → Bytes → Outcome (Status × Vectors)
str2cvv m string =
    if m.grants (length string + 1)
    then split_from m (length string + 3) 0 (some string)
        (record { tokens = string ∷ []; rests = string ∷ [] })
    else returns (failed, record { tokens = []; rests = [] })
