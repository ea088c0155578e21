-- ===== src/Trim/Command.antt =====
-- How `cliread_parse` of cligen_read.c takes a command line apart: it is trimmed, then split into tokens.
use cligen.Prelude.{
  ℕ, ◌<◌, ◌≡◌, refl, ap, sym, subst, arith, true, false, List, [], ◌∷◌, ◌++◌, ◌==◌, length,
  length-append, append-nil, All, Outcome, Returns, Returns-bind, ◌>>=◌,
}
use cligen.Memory.{int_max, Bytes, Machine, Status, ok, IsText, cstring}
use cligen.Edit.Block.{Holds}
use cligen.Token.{Vectors, str2cvv}
use cligen.Token.Words.{AllPlain, AllWords, tail_of, unwords, suffixes, str2cvv-unwords}
use cligen.Trim.{cli_trim, ascii}
use cligen.Trim.Text.{stripped, trimmed, uncommented, words, kept}
use cligen.Trim.Strip.{cli_trim-trimmed}

-- `cli_trim` and `cligen_str2cvv` in a row.
pub trim_and_split : Machine → ℕ → Bytes → Outcome (Status × Vectors)
trim_and_split m comment string = cli_trim comment string >>= λ s. str2cvv m (cstring s)

abbrev pub OneLine : Bytes → Type 0
OneLine [] = Unit
OneLine (c ∷ w) = ((c == b'\n') ≡ false) × OneLine w

stripped-plain : (w : Bytes) → AllPlain w → OneLine w → stripped w ≡ w
unfolding stripped
stripped-plain [] p o = refl
stripped-plain (c ∷ []) p o = ground arith
stripped-plain (c ∷ d ∷ w) p o = ap (kept c) (stripped-plain (d ∷ w) p.1 o.1)

stripped-append :
    (xs : Bytes) (y : ℕ) (ys : Bytes)
    → stripped (y ∷ ys) ≡ y ∷ ys
    → stripped (xs ++ y ∷ ys) ≡ xs ++ y ∷ ys
unfolding stripped
stripped-append [] y ys h = h
stripped-append (x ∷ []) y ys h = ap (kept x) h
stripped-append (x ∷ z ∷ xs) y ys h = ap (kept x) (stripped-append (z ∷ xs) y ys h)

-- A blank and the words behind it end with a word.
stripped-unwords :
    (w : Bytes) (ws : List Bytes)
    → AllWords (w ∷ ws)
    → All OneLine (w ∷ ws)
    → stripped (unwords (w ∷ ws)) ≡ unwords (w ∷ ws)
unfolding tail_of stripped
stripped-unwords w [] h o =
    subst (λ t. stripped t ≡ t) (sym (append-nil w)) (stripped-plain w h.0.0 o.0)
stripped-unwords w (v ∷ ws) h o =
    stripped-append w b' ' (unwords (v ∷ ws))
      (blank_before (unwords (v ∷ ws)) more (stripped-unwords v ws h.1 o.1))
  where
    more : 0 < length (unwords (v ∷ ws))
    more = omega (arith, length-append v (tail_of ws), h.1.0.1)

    blank_before : (t : Bytes) → 0 < length t → stripped t ≡ t → stripped (b' ' ∷ t) ≡ b' ' ∷ t
    blank_before [] p e = absurd (omega arith)
    blank_before (c ∷ t) p e = ap (kept b' ') e

-- A line whose words before a comment have no quotes, operators, backslashes and newlines is split into these words,
-- whatever blanks stand around them, while memory is granted. The first token and the first rest are the words with one blank between
-- them, and the others each word, and what begins with it. The words with the blanks are shorter
-- than INT_MAX.
pub trim_and_split-words :
    (m : Machine) (comment : ℕ) (string line w : Bytes) (ws : List Bytes)
    → ((n : ℕ) → m.grants n ≡ true)
    → Holds string line
    → IsText line
    → words (uncommented (ascii comment) true line) ≡ w ∷ ws
    → AllWords (w ∷ ws)
    → All OneLine (w ∷ ws)
    → length (unwords (w ∷ ws)) < int_max
    → Returns (trim_and_split m comment string) (λ r. r ≡ (
      ok,
      record { tokens = unwords (w ∷ ws) ∷ (w ∷ ws); rests = unwords (w ∷ ws) ∷ suffixes (w ∷ ws) },
    ))
unfolding trim_and_split
trim_and_split-words m comment string line w ws given h x is plain one small =
    Returns-bind (cli_trim comment string) (λ s. str2cvv m (cstring s))
      (λ s. cstring s ≡ trimmed (ascii comment) line)
      (λ r. r ≡ (
        ok,
        record {
          tokens = unwords (w ∷ ws) ∷ (w ∷ ws);
          rests = unwords (w ∷ ws) ∷ suffixes (w ∷ ws);
        },
      ))
      (cli_trim-trimmed comment string line h x)
      (λ s e.
        rw
          (
            e,
            is,
            stripped-unwords w ws plain one,
            str2cvv-unwords m given w ws plain small,
            Returns,
          )
          refl)
