-- ===== src/Token/Quoted.antt =====
-- Tokens in quotes.
use cligen.Prelude.{
  ℕ, suc, ◌+◌, ◌≡◌, refl, ap, ◌∙◌, arith, true, false, ◌||◌, some, [], ◌∷◌, ◌++◌, ◌==◌, ltb, length,
  take, drop, length-append, take-append_left, take_all, ◌≤◌, Bool-cases, inl, inr, returns, ◌>>=◌,
  within,
}
use cligen.Memory.{Bytes, Machine, ok, int_max, IsText, IsText-append, cstring}
use cligen.Escape.{escape_do, remove_backslash}
use cligen.Escape.Fit.{escape_do-quoted}
use cligen.Escape.Text.{body, quoted, has_special, remove_backslash-body, cstring-zeros}
use cligen.Token.Step.{split_from_token, split_from_end}
use cligen.Token.{
  put, skip_delimiters, is_quote, is_operator, starts_with, span_quoted, cut_token, made, Token,
  next_token, Vectors, str2cvv,
}

abbrev NoQuote : Bytes → Type 0
NoQuote [] = Unit
NoQuote (c ∷ cs) = (is_quote c ≡ false) × NoQuote cs

span-closed : (w r : Bytes) → NoQuote w → span_quoted (w ++ (b'"' ∷ r)) ≡ length w
unfolding span_quoted
span-closed [] r h = refl
span-closed (c ∷ w) r h = rw h.0 (omega (arith, span-closed w r h.1))

drop-closed : (w r : Bytes) → drop (length w + 1) (w ++ (b'"' ∷ r)) ≡ r
drop-closed [] r = refl
drop-closed (c ∷ w) r = ap (λ n. drop n (c ∷ (w ++ (b'"' ∷ r)))) (plus w) ∙ drop-closed w r
  where
    plus : (w : Bytes) → suc (length w) + 1 ≡ suc (length w + 1)
    plus w = omega arith

first-append :
    (w : Bytes) (c : ℕ) (r : Bytes)
    → is_operator c ≡ false
    → starts_with is_operator w ≡ false
    → starts_with is_operator (w ++ (c ∷ r)) ≡ false
first-append [] c r e h = e
first-append (x ∷ w) c r e h = h

-- A quoted string without a quote inside, that does not begin with `|`, is one token.
next_token-quoted :
    (m : Machine) (w r : Bytes)
    → NoQuote w
    → starts_with is_operator w ≡ false
    → m.grants (length w + 1) ≡ true
    → next_token m (b'"' ∷ (w ++ (b'"' ∷ r))) ≡ (
      ok,
      record { after = some r; token = some w; rest = b'"' ∷ (w ++ (b'"' ∷ r)); leading = 0 },
    )
unfolding next_token skip_delimiters cut_token made
next_token-quoted m w r no_quote plain given =
    rw
      (
        first-append w b'"' r refl plain,
        span-closed w r no_quote,
        closed,
        word,
        given,
        drop-closed w r,
      )
      refl
  where
    closed : ltb (length w) (length (w ++ (b'"' ∷ r))) ≡ true
    closed = ground (arith, length-append w (b'"' ∷ r))

    word : take (length w) (w ++ (b'"' ∷ r)) ≡ w
    word =
        take-append_left (length w) w (b'"' ∷ r) (omega arith) ∙ take_all w (length w) (omega arith)

module _ (m : Machine) (w : Bytes) (no_quote : NoQuote w)
    (plain : starts_with is_operator w ≡ false) (given : (n : ℕ) → m.grants n ≡ true) where
  abbrev whole : Bytes
  whole = b'"' ∷ (w ++ (b'"' ∷ []))

  abbrev start : Vectors
  start = record { tokens = whole ∷ []; rests = whole ∷ [] }

  abbrev found : Token
  found = record { after = some []; token = some w; rest = whole; leading = 0 }

  split_quoted : str2cvv m whole ≡ returns (ok, put start found)
  unfolding str2cvv
  split_quoted =
      rw (given (length whole + 1), add3 (length whole))
        (split_from_token m (suc (length whole + 1)) 0 whole start found w
            (next_token-quoted m w [] no_quote plain (given (length w + 1))) refl (omega arith)
            (omega arith)
          ∙ split_from_end m (length whole + 1) 0 (put start found))
    where
      add3 : (n : ℕ) → n + 3 ≡ suc (suc (n + 1))
      add3 n = omega arith

NoQuote-body : (s : Bytes) → NoQuote s → NoQuote (body s)
unfolding body
NoQuote-body [] h = tt
NoQuote-body (c ∷ s) h = elim (Bool-cases (c == b'?' || c == b'\\')) [
  | inl escaped ↦ rw escaped (refl, (h.0, NoQuote-body s h.1))
  | inr kept ↦ rw kept (h.0, NoQuote-body s h.1)
]

body-first :
    (s : Bytes) → starts_with is_operator s ≡ false → starts_with is_operator (body s) ≡ false
unfolding body
body-first [] h = refl
body-first (c ∷ s) h = ground arith

IsText-body : (s : Bytes) → IsText s → IsText (body s)
unfolding body
IsText-body [] h = tt
IsText-body (c ∷ s) h = elim (Bool-cases (c == b'?' || c == b'\\')) [
  | inl escaped ↦ rw escaped (omega arith, omega arith, (h.0, h.1, IsText-body s h.2))
  | inr kept ↦ rw kept (h.0, h.1, IsText-body s h.2)
]

-- What C reads of the block that `cligen_escape_do` has filled.
cstring-quoted : (s : Bytes) → IsText s → cstring (quoted s ++ (0 ∷ [])) ≡ quoted s
cstring-quoted s h = cstring-zeros (quoted s) 1 (
  omega arith,
  omega arith,
  IsText-append (body s) (b'"' ∷ []) (IsText-body s h) (omega arith, omega arith, tt),
)

-- While memory is granted, of a text with a blank, a `?` or a backslash, without a quote inside, that
-- does not begin with `|`, and whose escaped text has a length that an int can hold with the quotes
-- and the NUL: `cligen_str2cvv` of what `cligen_escape_do` makes of it gives one token behind the
-- whole, and from that token `string_remove_backslash` makes the text.
pub str2cvv-quoted :
    (m : Machine) (s : Bytes)
    → ((n : ℕ) → m.grants n ≡ true)
    → IsText s
    → NoQuote s
    → starts_with is_operator s ≡ false
    → has_special s ≡ true
    → length (body s) + 3 ≤ int_max
    → ((escape_do m (some s) >>= λ o. within o >>= λ block. str2cvv m (cstring block))
        ≡ returns
            (ok, record { tokens = quoted s ∷ body s ∷ []; rests = quoted s ∷ quoted s ∷ [] }))
      × (cstring (remove_backslash (body s)) ≡ s)
str2cvv-quoted m s given text no_quote plain special small = (
  rw (escape_do-quoted m s special small (given (length (body s) + 3)), cstring-quoted s text)
      (split_quoted m (body s) (NoQuote-body s no_quote) (body-first s plain) given),
  remove_backslash-body s text,
)

-- Quotes do not keep a string together that begins with `|`: whatever byte stands behind it, the
-- token is `|` alone, and the byte is lost.
pub next_token_operator :
    (m : Machine) (c : ℕ) (r : Bytes)
    → m.grants 2 ≡ true
    → next_token m (b'"' ∷ b'|' ∷ c ∷ r) ≡ (
      ok,
      record { after = some r; token = some (b'|' ∷ []); rest = b'"' ∷ b'|' ∷ c ∷ r; leading = 0 },
    )
unfolding next_token skip_delimiters cut_token made
next_token_operator m c r given =
    rw ((let e : ltb 1 (suc (suc (length r))) ≡ true = ground arith in e), given) refl
