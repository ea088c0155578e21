-- ===== src/Trim/Text.antt =====
-- What a trimmed line is: its words before a comment, with one blank between them.
use cligen.Prelude.{
  ℕ, ◌≡◌, refl, ap, ◌∙◌, arith, Bool, true, false, not, ◌||◌, List, [], ◌∷◌, if◌then◌else◌,
  Bool-cases, inl, inr,
}
use cligen.Memory.{Bytes}
use cligen.Lines.{is_blank}
use cligen.Token.Words.{tail_of, unwords}
use cligen.Trim.{is_comment, is_trailing}

-- The text before a comment character at its beginning or behind a blank.
unfoldable pub uncommented : ℕ → Bool → Bytes → Bytes
uncommented comment edge [] = []
uncommented comment edge (x ∷ t) =
    if is_comment comment edge x then [] else x ∷ uncommented comment (is_blank x) t

abbrev begins_word : Bytes → Bool
begins_word [] = false
begins_word (x ∷ t) = not (is_blank x)

-- A byte before a text: in its first word, or a word of its own.
abbrev grown : ℕ → Bool → List Bytes → List Bytes
grown x joins [] = (x ∷ []) ∷ []
grown x joins (w ∷ ws) = if joins then (x ∷ w) ∷ ws else (x ∷ []) ∷ (w ∷ ws)

-- The longest parts of a text that have no blanks.
unfoldable pub words : Bytes → List Bytes
words [] = []
words (x ∷ t) = if is_blank x then words t else grown x (begins_word t) (words t)

-- A byte before a text, unless there is nothing but blanks and newlines.
abbrev pub kept : ℕ → Bytes → Bytes
kept x [] = if is_trailing x then [] else x ∷ []
kept x (y ∷ t) = x ∷ y ∷ t

-- Without blanks and newlines at the end.
unfoldable pub stripped : Bytes → Bytes
stripped [] = []
stripped (x ∷ t) = kept x (stripped t)

-- What `cli_trim` is meant to make of a line.
abbrev pub trimmed : ℕ → Bytes → Bytes
trimmed comment t = stripped (unwords (words (uncommented comment true t)))

-- What the loop writes.
unfoldable pub squeezed : ℕ → Bool → Bool → Bytes → Bytes
squeezed comment whitespace first [] = []
squeezed comment whitespace first (x ∷ t) =
    if is_comment comment (whitespace || first) x
    then b'\n' ∷ []
    else if is_blank x
    then (if whitespace
        then squeezed comment true false t
        else b' ' ∷ squeezed comment true false t)
    else x ∷ squeezed comment false false t

unfoldable pub without_blanks : Bytes → Bytes
without_blanks [] = []
without_blanks (x ∷ t) = if is_blank x then without_blanks t else x ∷ t

-- The words of a text behind a byte of a word.
abbrev continued : Bytes → Bytes
continued t = if begins_word t then unwords (words t) else tail_of (words t)

unwords-grown :
    (x : ℕ) (joins : Bool) (ws : List Bytes)
    → unwords (grown x joins ws) ≡ x ∷ (if joins then unwords ws else tail_of ws)
unfolding tail_of
unwords-grown x true [] = refl
unwords-grown x true (w ∷ ws) = refl
unwords-grown x false [] = refl
unwords-grown x false (w ∷ ws) = refl

unwords-words : (x : ℕ) (t : Bytes) → is_blank x ≡ false → unwords (words (x ∷ t)) ≡ x ∷ continued t
unfolding words
unwords-words x t h = rw h (unwords-grown x (begins_word t) (words t))

-- Blanks before words do not matter once the end is stripped.
stripped-behind : (ws : List Bytes) → stripped (b' ' ∷ unwords ws) ≡ stripped (tail_of ws)
unfolding stripped tail_of
stripped-behind [] = refl
stripped-behind (w ∷ ws) = refl

-- Behind a blank the loop writes the words of the rest, and within a word it goes on with it.
abbrev Squeezes : ℕ → Bytes → Type 0
Squeezes comment t =
    (stripped (squeezed comment true false t)
      ≡ stripped (unwords (words (uncommented comment true t))))
    × (stripped (squeezed comment false false t)
        ≡ stripped (continued (uncommented comment false t)))

no_comment : (comment x : ℕ) → is_comment comment false x ≡ false
no_comment comment x = ground arith

-- One byte more, which is a blank or not.
module _ (comment x : ℕ) (t : Bytes) (rest : Squeezes comment t) where
  blank_behind :
      is_blank x ≡ true
      → stripped (squeezed comment true false t)
        ≡ stripped (unwords (words (x ∷ uncommented comment true t)))
  unfolding words
  blank_behind blank = rw blank rest.0

  letter_behind :
      is_blank x ≡ false
      → stripped (x ∷ squeezed comment false false t)
        ≡ stripped (unwords (words (x ∷ uncommented comment false t)))
  unfolding stripped
  letter_behind letter =
      rw (unwords-words x (uncommented comment false t) letter) (ap (kept x) rest.1)

  blank_within :
      is_blank x ≡ true
      → stripped (b' ' ∷ squeezed comment true false t)
        ≡ stripped (tail_of (words (x ∷ uncommented comment true t)))
  unfolding stripped words
  blank_within blank =
      rw blank (ap (kept b' ') rest.0 ∙ stripped-behind (words (uncommented comment true t)))

nothing_left :
    (stripped [] ≡ stripped (unwords (words []))) × (stripped [] ≡ stripped (continued []))
unfolding words tail_of
nothing_left = (refl, refl)

comment_alone : stripped (b'\n' ∷ []) ≡ stripped (unwords (words []))
unfolding words stripped
comment_alone = refl

squeezed-Squeezes : (comment : ℕ) (t : Bytes) → Squeezes comment t
unfolding squeezed uncommented
squeezed-Squeezes comment [] = nothing_left
squeezed-Squeezes comment (x ∷ t) =
    let rest = squeezed-Squeezes comment t in
    elim (Bool-cases (is_blank x)) [
      | inl blank ↦ (
        elim (Bool-cases (is_comment comment true x)) [
          | inl hit ↦ rw hit comment_alone
          | inr miss ↦ rw (miss, blank) (blank_behind comment x t rest blank)
        ],
        rw (no_comment comment x, blank) (blank_within comment x t rest blank),
      )
      | inr letter ↦ (
        elim (Bool-cases (is_comment comment true x)) [
          | inl hit ↦ rw hit comment_alone
          | inr miss ↦ rw (miss, letter) (letter_behind comment x t rest letter)
        ],
        rw (no_comment comment x, letter) (letter_behind comment x t rest letter),
      )
    ]

-- A text that the loop writes behind a blank has no blank in front.
without_blanks-squeezed :
    (comment : ℕ) (t : Bytes)
    → without_blanks (squeezed comment true false t) ≡ squeezed comment true false t
unfolding squeezed without_blanks
without_blanks-squeezed comment [] = refl
without_blanks-squeezed comment (x ∷ t) = elim (Bool-cases (is_comment comment true x)) [
  | inl hit ↦ rw hit
  | inr miss ↦ elim (Bool-cases (is_blank x)) [
    | inl blank ↦ rw (miss, blank) (without_blanks-squeezed comment t)
    | inr letter ↦ rw (miss, letter, letter)
  ]
]

-- Stripped at both ends, what the loop writes is the trimmed line.
pub stripped-squeezed :
    (comment : ℕ) (t : Bytes)
    → stripped (without_blanks (squeezed comment false true t)) ≡ trimmed comment t
unfolding squeezed uncommented without_blanks
stripped-squeezed comment [] = nothing_left.0
stripped-squeezed comment (x ∷ t) =
    let rest = squeezed-Squeezes comment t in
    elim (Bool-cases (is_comment comment true x)) [
      | inl hit ↦ rw hit comment_alone
      | inr miss ↦ elim (Bool-cases (is_blank x)) [
        | inl blank ↦
            rw (miss, blank, without_blanks-squeezed comment t)
              (blank_behind comment x t rest blank)
        | inr letter ↦ rw (miss, letter, letter) (letter_behind comment x t rest letter)
      ]
    ]
