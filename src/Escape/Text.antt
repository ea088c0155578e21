-- ===== src/Escape/Text.antt =====
-- The escaped text, and the text without its backslashes.
use cligen.Prelude.{
  ℕ, zero, suc, ◌+◌, ◌-◌, ◌≤◌, ◌<◌, ◌≡◌, refl, ap, ◌∙◌, arith, Bool, true, false, ◌||◌, [], ◌∷◌,
  ◌++◌, ◌==◌, ltb, returns, Bool-cases, inl, inr, length, replicate, if◌then◌else◌,
}
use cligen.Memory.{Bytes, int_max, IsText, cstring}
use cligen.Escape.{is_special, counted, count_from, escape_nr, unescape_from, remove_backslash}

-- `?` and `\` have a backslash before them.
unfoldable pub body : Bytes → Bytes
body [] = []
body (c ∷ cs) = if c == b'?' || c == b'\\' then b'\\' ∷ (c ∷ body cs) else c ∷ body cs

abbrev pub quoted : Bytes → Bytes
quoted s = b'"' ∷ (body s ++ (b'"' ∷ []))

-- Some character is a blank, a `?` or a backslash.
unfoldable pub has_special : Bytes → Bool
has_special [] = false
has_special (c ∷ cs) = is_special c || has_special cs

-- What `cligen_escape_nr` counts, as a number without a bound.
unfoldable nr_of : ℕ → Bytes → ℕ
nr_of nr [] = nr
nr_of nr (c ∷ cs) = if is_special c then nr_of (counted nr c) cs else nr_of nr cs

-- An int is enough for a string whose length with two quotes is one.
count_from-nr_of :
    (nr : ℕ) (s : Bytes)
    → (if nr == 0 then 2 else nr) + length s ≤ int_max
    → count_from nr s ≡ returns (nr_of nr s)
unfolding count_from nr_of
count_from-nr_of nr [] h = refl
count_from-nr_of nr (c ∷ cs) h = elim (Bool-cases (is_special c)) [
  | inl special ↦
      rw (special, (let e : ltb int_max (counted nr c) ≡ false = ground arith in e))
        (count_from-nr_of (counted nr c) cs (ground arith))
  | inr other ↦ rw other (count_from-nr_of nr cs (ground arith))
]

nr_of_more : (nr : ℕ) (s : Bytes) → 0 < nr → nr_of nr s + length s ≡ nr + length (body s)
unfolding nr_of body
nr_of_more nr [] p = refl
nr_of_more nr (c ∷ cs) p =
    ground (arith, nr_of_more nr cs p, nr_of_more (nr + 1) cs, nr_of_more (nr + 0) cs)

length-nr_of : (s : Bytes) → has_special s ≡ true → length s + 1 + nr_of 0 s ≡ length (body s) + 3
unfolding nr_of body has_special
length-nr_of [] h = cc h
length-nr_of (c ∷ cs) h = ground (arith, length-nr_of cs, nr_of_more 2 cs, nr_of_more 3 cs)

length-body-le : (s : Bytes) → length s ≤ length (body s)
unfolding body
length-body-le [] = omega arith
length-body-le (c ∷ cs) = ground (arith, length-body-le cs)

-- The length of the block is that of the escaped text and its NUL.
pub length-body :
    (s : Bytes)
    → has_special s ≡ true
    → length (body s) + 3 ≤ int_max
    → (nr : ℕ) × (escape_nr s ≡ returns nr) × (length s + 1 + nr ≡ length (body s) + 3)
unfolding escape_nr
length-body s h small =
    (nr_of 0 s, count_from-nr_of 0 s (omega (arith, length-body-le s)), length-nr_of s h)

-- A string without such a character is the same escaped, and is given no room for quotes.
pub body_plain : (s : Bytes) → has_special s ≡ false → (body s ≡ s) × (escape_nr s ≡ returns 0)
unfolding escape_nr count_from body has_special
body_plain [] h = (refl, refl)
body_plain (c ∷ cs) h = ground (arith, body_plain cs)

unescape-body : (s : Bytes) → unescape_from false (body s) ≡ s
unfolding unescape_from body
unescape-body [] = refl
unescape-body (c ∷ cs) = ground (arith, unescape-body cs)

pub cstring-zeros : (t : Bytes) (k : ℕ) → IsText t → cstring (t ++ replicate k 0) ≡ t
unfolding cstring
cstring-zeros [] zero h = refl
cstring-zeros [] (suc k) h = refl
cstring-zeros (c ∷ t) k h = ground (arith, cstring-zeros t k)

-- What C reads of the escaped text after the backslashes are removed is the string.
pub remove_backslash-body : (s : Bytes) → IsText s → cstring (remove_backslash (body s)) ≡ s
unfolding remove_backslash
remove_backslash-body s h =
    ap (λ t. cstring (t ++ replicate (length (body s) - length t) 0)) (unescape-body s)
    ∙ cstring-zeros s (length (body s) - length s) h
