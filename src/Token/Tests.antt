-- ===== src/Token/Tests.antt =====
-- Runs of `cligen_str2cvv`.
use cligen.Prelude.{
  ◌≡◌, refl, arith, true, some, [], ◌∷◌, returns, Returns, ◌+◌, ◌≤◌, ◌<◌, length, ◌>>=◌, within,
}
use cligen.Memory.{Bytes, Machine, ok, cstring, int_max}
use cligen.Escape.{escape_do, remove_backslash}
use cligen.Escape.Text.{body, quoted, has_special}
use cligen.Token.{next_token, str2cvv, skip_delimiters, span_plain, cut_token, made}
use cligen.Token.Total.{Paired, str2cvv-Paired}
use cligen.Token.Quoted.{str2cvv-quoted, next_token_operator}
use cligen.Token.Words.{tail_of, unwords, suffixes, str2cvv-unwords}

abbrev roomy : Machine
roomy = record { grants = λ n. true; junk = λ i. 170 }

abbrev ab : Bytes
ab = b'a' ∷ b'b' ∷ []

-- A backslash keeps a blank inside of a token.
next_token_escaped_blank :
    (next_token roomy (b' ' ∷ b'a' ∷ b'\\' ∷ b' ' ∷ b'b' ∷ b'|' ∷ [])).1 ≡ record {
      after = some (b'|' ∷ []);
      token = some (b'a' ∷ b'\\' ∷ b' ' ∷ b'b' ∷ []);
      rest = b'a' ∷ b'\\' ∷ b' ' ∷ b'b' ∷ b'|' ∷ [];
      leading = 1;
    }
unfolding next_token skip_delimiters span_plain cut_token made
next_token_escaped_blank = refl

str2cvv-Paired_example : Returns (str2cvv roomy (b'"' ∷ b'a' ∷ b' ' ∷ [])) (Paired roomy 2)
str2cvv-Paired_example = str2cvv-Paired roomy (b'"' ∷ b'a' ∷ b' ' ∷ []) (omega arith)

abbrev question : Bytes
question = b'a' ∷ b' ' ∷ b'?' ∷ []

question_is_special : has_special question ≡ true
unfolding has_special
question_is_special = refl

question_is_short : length (body question) + 3 ≤ int_max
unfolding body
question_is_short = omega arith

str2cvv-quoted_example :
    ((escape_do roomy (some question) >>= λ o. within o >>= λ block. str2cvv roomy (cstring block))
      ≡ returns (
        ok,
        record {
          tokens = quoted question ∷ body question ∷ [];
          rests = quoted question ∷ quoted question ∷ [];
        },
      ))
    × (cstring (remove_backslash (body question)) ≡ question)
str2cvv-quoted_example =
    str2cvv-quoted roomy question (λ n. refl) (omega arith) (refl, (refl, (refl, tt))) refl
      question_is_special question_is_short

next_token_operator_example : next_token roomy (b'"' ∷ b'|' ∷ b'x' ∷ b'"' ∷ []) ≡ (
  ok,
  record {
    after = some (b'"' ∷ []);
    token = some (b'|' ∷ []);
    rest = b'"' ∷ b'|' ∷ b'x' ∷ b'"' ∷ [];
    leading = 0;
  },
)
next_token_operator_example = next_token_operator roomy b'x' (b'"' ∷ []) refl

pair_is_short : length (unwords (ab ∷ ab ∷ [])) < int_max
unfolding tail_of
pair_is_short = omega arith

str2cvv-unwords_example :
    str2cvv roomy (unwords (ab ∷ ab ∷ []))
    ≡ returns (
      ok,
      record {
        tokens = unwords (ab ∷ ab ∷ []) ∷ ab ∷ ab ∷ [];
        rests = unwords (ab ∷ ab ∷ []) ∷ suffixes (ab ∷ ab ∷ []);
      },
    )
str2cvv-unwords_example =
    str2cvv-unwords roomy (λ n. refl) ab (ab ∷ [])
      (((refl, (refl, tt)), omega arith), (((refl, (refl, tt)), omega arith), tt)) pair_is_short
