-- ===== src/Lines/Split.antt =====
-- The lines of a text, each without the blanks that it begins with.
use cligen.Prelude.{
  ℕ, ◌≡◌, refl, ap, ◌∙◌, sym, Bool, true, false, ◌&&◌, List, [], ◌∷◌, ◌++◌, ◌==◌, map, length, ltb,
  returns, fault, append_assoc, append-nil, if◌then◌else◌, Bool-cases, inl, inr,
}
use cligen.Memory.{Bytes, int_max}
use cligen.Lines.{is_blank, lines_from, txt2cvv}

abbrev strip : Bytes → Bytes
strip [] = []
strip (c ∷ s) = if is_blank c then strip s else c ∷ s

-- A line has no newline in it.
abbrev pub IsLine : Bytes → Type 0
IsLine [] = Unit
IsLine (c ∷ s) = ((c == b'\n') ≡ false) × IsLine s

abbrev AllLines : List Bytes → Type 0
AllLines [] = Unit
AllLines (l ∷ ls) = IsLine l × AllLines ls

-- The lines with a newline behind each, and what follows the last newline.
abbrev text_of : List Bytes → Bytes → Bytes
text_of [] last = last
text_of (l ∷ ls) last = l ++ (b'\n' ∷ text_of ls last)

-- A last line that is not ended is kept where it is not blank.
abbrev pub kept : Bytes → List Bytes
kept l = if length l == 0 then [] else l ∷ []

lines_from_step :
    (w : Bool) (part : Bytes) (c : ℕ) (s : Bytes)
    → lines_from w part (c ∷ s) ≡ (
        if w && is_blank c
        then lines_from w [] s
        else if c == b'\n'
        then part ∷ lines_from true [] s
        else lines_from false (part ++ (c ∷ [])) s)
unfolding lines_from
lines_from_step w part c s = refl

-- Inside of a line.
lines_from-line :
    (part l s : Bytes)
    → IsLine l
    → lines_from false part (l ++ (b'\n' ∷ s)) ≡ (part ++ l) ∷ lines_from true [] s
lines_from-line part [] s h =
    lines_from_step false part b'\n' s ∙ ap (λ p. p ∷ lines_from true [] s) (sym (append-nil part))
lines_from-line part (c ∷ l) s h =
    rw (lines_from_step false part c (l ++ (b'\n' ∷ s)), h.0)
      (lines_from-line (part ++ (c ∷ [])) l s h.1
        ∙ ap (λ p. p ∷ lines_from true [] s) (append_assoc part (c ∷ []) l))

lines_from-last : (part l : Bytes) → IsLine l → lines_from false part l ≡ kept (part ++ l)
lines_from-last part [] h = unfold lines_from in ap kept (sym (append-nil part))
lines_from-last part (c ∷ l) h =
    rw (lines_from_step false part c l, h.0)
      (lines_from-last (part ++ (c ∷ [])) l h.1 ∙ ap kept (append_assoc part (c ∷ []) l))

-- At the start of a line.
lines_from-strip :
    (l s : Bytes)
    → IsLine l
    → lines_from true [] (l ++ (b'\n' ∷ s)) ≡ strip l ∷ lines_from true [] s
lines_from-strip [] s h = lines_from_step true [] b'\n' s
lines_from-strip (c ∷ l) s h = elim (Bool-cases (is_blank c)) [
  | inl blank ↦ rw (lines_from_step true [] c (l ++ (b'\n' ∷ s)), blank) (lines_from-strip l s h.1)
  | inr text ↦
      rw (lines_from_step true [] c (l ++ (b'\n' ∷ s)), text, h.0)
        (lines_from-line (c ∷ []) l s h.1)
]

lines_from-kept : (l : Bytes) → IsLine l → lines_from true [] l ≡ kept (strip l)
lines_from-kept [] h = unfold lines_from in refl
lines_from-kept (c ∷ l) h = elim (Bool-cases (is_blank c)) [
  | inl blank ↦ rw (lines_from_step true [] c l, blank) (lines_from-kept l h.1)
  | inr text ↦ rw (lines_from_step true [] c l, text, h.0) (lines_from-last (c ∷ []) l h.1)
]

lines_from-text_of :
    (ls : List Bytes) (last : Bytes)
    → AllLines ls
    → IsLine last
    → lines_from true [] (text_of ls last) ≡ map strip ls ++ kept (strip last)
lines_from-text_of [] last h e = lines_from-kept last e
lines_from-text_of (l ∷ ls) last h e =
    lines_from-strip l (text_of ls last) h.0
    ∙ ap (λ t. strip l ∷ t) (lines_from-text_of ls last h.1 e)

-- Of any text, `cligen_txt2cvv` makes the lines that newlines end, empty ones too, each without the
-- blanks that it begins with, and then the rest, unless that is blank. Only the int index of a text
-- whose length an int cannot hold overflows.
pub txt2cvv-text_of :
    (ls : List Bytes) (last : Bytes)
    → AllLines ls
    → IsLine last
    → txt2cvv (text_of ls last) ≡ (
        if ltb int_max (length (text_of ls last))
        then fault
        else returns (map strip ls ++ kept (strip last)))
unfolding txt2cvv
txt2cvv-text_of ls last h e =
    ap (λ r. if ltb int_max (length (text_of ls last)) then fault else returns r)
      (lines_from-text_of ls last h e)
