-- ===== src/Trim/Tests.antt =====
-- Lines that are trimmed.
use cligen.Prelude.{true, ◌≡◌, refl, arith, [], ◌∷◌, returns, Returns, length, ◌<◌}
use cligen.Memory.{int_max, Bytes, Machine, cstring, ok}
use cligen.Edit.{peek, poke, strlen}
use cligen.Edit.Block.{Holds}
use cligen.Token.Words.{AllWords, tail_of, unwords, suffixes}
use cligen.Trim.{cli_trim, trim_loop, strip_heading, strip_trailing, ascii}
use cligen.Trim.Text.{trimmed, words, stripped, uncommented}
use cligen.Trim.Command.{trim_and_split, trim_and_split-words}
use cligen.Trim.Strip.{cli_trim-trimmed}

-- " a  b #c" and its NUL.
abbrev line : Bytes
line = b' ' ∷ b'a' ∷ b'\t' ∷ b' ' ∷ b'b' ∷ b' ' ∷ b'#' ∷ b'c' ∷ []

abbrev block : Bytes
block = b' ' ∷ b'a' ∷ b'\t' ∷ b' ' ∷ b'b' ∷ b' ' ∷ b'#' ∷ b'c' ∷ 0 ∷ []

trimmed_test : trimmed b'#' line ≡ b'a' ∷ b' ' ∷ b'b' ∷ []
unfolding words tail_of stripped uncommented
trimmed_test = refl

-- The line is trimmed in its own block, and begins behind the blank.
cli_trim_test : cli_trim b'#' block ≡ returns (b'a' ∷ b' ' ∷ b'b' ∷ 0 ∷ 0 ∷ 0 ∷ b'c' ∷ 0 ∷ [])
unfolding cli_trim trim_loop strip_heading strip_trailing peek poke strlen
cli_trim_test = refl

block-Holds : Holds block line
block-Holds = (omega arith, λ j k. ground arith)

cli_trim-trimmed_example :
    Returns (cli_trim b'#' block) (λ b. cstring b ≡ trimmed (ascii b'#') line)
cli_trim-trimmed_example = cli_trim-trimmed b'#' block line block-Holds (omega arith)

abbrev roomy : Machine
roomy = record { grants = λ n. true; junk = λ i. 170 }

line_words : words (uncommented (ascii b'#') true line) ≡ (b'a' ∷ []) ∷ (b'b' ∷ []) ∷ []
unfolding words uncommented
line_words = refl

line_plain : AllWords ((b'a' ∷ []) ∷ (b'b' ∷ []) ∷ [])
line_plain = (((refl, tt), omega arith), (((refl, tt), omega arith), tt))

words_short : length (unwords ((b'a' ∷ []) ∷ (b'b' ∷ []) ∷ [])) < int_max
unfolding tail_of
words_short = omega arith

trim_and_split-words_example : Returns (trim_and_split roomy b'#' block) (λ r. r ≡ (
  ok,
  record {
    tokens = unwords ((b'a' ∷ []) ∷ (b'b' ∷ []) ∷ []) ∷ (b'a' ∷ []) ∷ (b'b' ∷ []) ∷ [];
    rests = unwords ((b'a' ∷ []) ∷ (b'b' ∷ []) ∷ []) ∷ suffixes ((b'a' ∷ []) ∷ (b'b' ∷ []) ∷ []);
  },
))
trim_and_split-words_example =
    trim_and_split-words roomy b'#' block line (b'a' ∷ []) ((b'b' ∷ []) ∷ []) (λ n. refl)
      block-Holds (omega arith) line_words line_plain ((refl, tt), ((refl, tt), tt)) words_short
