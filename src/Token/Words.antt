-- ===== src/Token/Words.antt =====
-- Strings of plain words.
use cligen.Prelude.{
  ℕ, zero, suc, ◌+◌, ◌≤◌, ◌<◌, ◌≡◌, refl, ap, ap₂, ◌∙◌, sym, arith, Bool, true, false, not, ◌||◌,
  some, List, [], ◌∷◌, ◌++◌, ◌==◌, length, take, drop, length-append, take-append_left, take_all,
  append_assoc, append-nil, returns,
}
use cligen.Memory.{int_max, Bytes, Machine, ok}
use cligen.Token.Step.{split_from_token, split_from_end}
use cligen.Token.{
  skip_delimiters, is_delimiter, is_quote, is_operator, starts_with, span_plain, cut_token, made,
  Token, next_token, Vectors, split_from, str2cvv, put,
}

-- No character of the word means anything to `next_token`.
abbrev pub is_plain : ℕ → Bool
is_plain c = not (c == b'\\' || (is_delimiter c || (is_operator c || is_quote c)))

abbrev pub AllPlain : Bytes → Type 0
AllPlain [] = Unit
AllPlain (c ∷ cs) = (is_plain c ≡ true) × AllPlain cs

abbrev pub IsWord : Bytes → Type 0
IsWord w = AllPlain w × (0 < length w)

abbrev pub AllWords : List Bytes → Type 0
AllWords [] = Unit
AllWords (w ∷ ws) = IsWord w × AllWords ws

-- The words that follow a word, each with a blank before it.
unfoldable pub tail_of : List Bytes → Bytes
tail_of [] = []
tail_of (w ∷ ws) = b' ' ∷ (w ++ tail_of ws)

abbrev pub unwords : List Bytes → Bytes
unwords [] = []
unwords (w ∷ ws) = w ++ tail_of ws

-- What is left of the string at each word.
abbrev pub suffixes : List Bytes → List Bytes
suffixes [] = []
suffixes (w ∷ ws) = unwords (w ∷ ws) ∷ suffixes ws

span-word :
    (w : Bytes) (ws : List Bytes) → AllPlain w → span_plain false (w ++ tail_of ws) ≡ length w
unfolding span_plain tail_of
span-word [] [] h = refl
span-word [] (w ∷ ws) h = refl
span-word (c ∷ w) ws h = ground (arith, span-word w ws)

skip-word : (w r : Bytes) → IsWord w → skip_delimiters (w ++ r) ≡ (0, w ++ r)
unfolding skip_delimiters
skip-word [] r h = absurd (omega arith)
skip-word (c ∷ w) r h = ground arith

-- A word does not begin with a quote or an operator.
starts-word :
    (w r : Bytes)
    → IsWord w
    → (starts_with is_quote (w ++ r) ≡ false) × (starts_with is_operator (w ++ r) ≡ false)
starts-word [] r h = absurd (omega arith)
starts-word (c ∷ w) r h = ground arith

drop-word : (w r : Bytes) → drop (length w) (w ++ r) ≡ r
drop-word [] r = refl
drop-word (c ∷ w) r = drop-word w r

module _ (m : Machine) (given : (n : ℕ) → m.grants n ≡ true) where
  abbrev word_token : ℕ → Bytes → List Bytes → Token
  word_token leading w ws = record {
    after = some (tail_of ws);
    token = some w;
    rest = w ++ tail_of ws;
    leading = leading;
  }

  cut-word :
      (leading : ℕ) (w : Bytes) (ws : List Bytes)
      → IsWord w
      → cut_token m leading (w ++ tail_of ws) false (w ++ tail_of ws) (length w)
        ≡ (ok, word_token leading w ws)
  unfolding cut_token made
  cut-word leading w ws h =
      rw (word, some_length, given (length w + 1), drop-word w (tail_of ws)) refl
    where
      word : take (length w) (w ++ tail_of ws) ≡ w
      word =
          take-append_left (length w) w (tail_of ws) (omega arith)
          ∙ take_all w (length w) (omega arith)

      some_length : (length w == 0) ≡ false
      some_length = ground arith

  next_token-word :
      (w : Bytes) (ws : List Bytes)
      → IsWord w
      → next_token m (w ++ tail_of ws) ≡ (ok, word_token 0 w ws)
  unfolding next_token
  next_token-word w ws h =
      let (no_quote, no_operator) = starts-word w (tail_of ws) h in
      rw (skip-word w (tail_of ws) h, no_quote, no_operator, span-word w ws h.0) (cut-word 0 w ws h)

  next_token-tail :
      (w : Bytes) (ws : List Bytes)
      → IsWord w
      → next_token m (b' ' ∷ (w ++ tail_of ws)) ≡ (ok, word_token 1 w ws)
  unfolding next_token skip_delimiters
  next_token-tail w ws h =
      let (no_quote, no_operator) = starts-word w (tail_of ws) h in
      rw (skip-word w (tail_of ws) h, no_quote, no_operator, span-word w ws h.0) (cut-word 1 w ws h)

  abbrev joined : Vectors → List Bytes → Vectors
  joined v ws = record { tokens = v.tokens ++ ws; rests = v.rests ++ suffixes ws }

  put-joined :
      (v : Vectors) (k : ℕ) (w : Bytes) (ws : List Bytes)
      → joined (put v (word_token k w ws)) ws ≡ joined v (w ∷ ws)
  put-joined v k w ws =
      ap₂ (λ ts rs. record { tokens = ts; rests = rs }) (append_assoc v.tokens (w ∷ []) ws)
        (append_assoc v.rests (unwords (w ∷ ws) ∷ []) (suffixes ws))

  split_from-tail :
      (fuel i : ℕ) (ws : List Bytes) (v : Vectors)
      → AllWords ws
      → length (tail_of ws) < fuel
      → i + 1 + length (tail_of ws) ≤ int_max
      → split_from m fuel (i + 1) (some (tail_of ws)) v ≡ returns (ok, joined v ws)
  unfolding tail_of
  split_from-tail zero i ws v h enough counts = absurd (omega arith)
  split_from-tail (suc fuel) i [] v h enough counts =
      split_from_end m fuel i v
      ∙ ap₂ (λ ts rs. returns (ok, record { tokens = ts; rests = rs })) (sym (append-nil v.tokens))
          (sym (append-nil v.rests))
  split_from-tail (suc fuel) i (w ∷ ws) v h enough counts =
      split_from_token m fuel (i + 1) (b' ' ∷ (w ++ tail_of ws)) v (word_token 1 w ws) w
        (next_token-tail w ws h.0) refl (omega arith) (omega arith)
      ∙ split_from-tail fuel (i + 1) ws (put v (word_token 1 w ws)) h.1
          (omega (arith, length-append w (tail_of ws)))
          (omega (arith, length-append w (tail_of ws)))
      ∙ ap (λ u. returns (ok, u)) (put-joined v 1 w ws)

  -- While memory is granted, a string of words with one blank between them, of which none is empty or
  -- has a backslash, a `|`, a quote or a blank, is split into those words, each with the rest of the
  -- string from that word on, behind the whole string. The string is shorter than INT_MAX.
  pub str2cvv-unwords :
      (w : Bytes) (ws : List Bytes)
      → AllWords (w ∷ ws)
      → length (unwords (w ∷ ws)) < int_max
      → str2cvv m (unwords (w ∷ ws))
        ≡ returns (
          ok,
          record {
            tokens = unwords (w ∷ ws) ∷ (w ∷ ws);
            rests = unwords (w ∷ ws) ∷ suffixes (w ∷ ws);
          },
        )
  unfolding str2cvv
  str2cvv-unwords w ws h small =
      rw (given (length whole + 1), add3 (length whole))
        (split_from_token m (length whole + 2) 0 whole start (word_token 0 w ws) w
            (next_token-word w ws h.0) refl (omega arith) (omega arith)
          ∙ split_from-tail (length whole + 2) 0 ws (put start (word_token 0 w ws)) h.1
              (omega (arith, length-append w (tail_of ws)))
              (omega (arith, small, h.0.1, length-append w (tail_of ws)))
          ∙ ap (λ u. returns (ok, u)) (put-joined start 0 w ws))
    where
      whole : Bytes
      whole = unwords (w ∷ ws)

      start : Vectors
      start = record { tokens = whole ∷ []; rests = whole ∷ [] }

      add3 : (n : ℕ) → n + 3 ≡ suc (n + 2)
      add3 n = omega arith
