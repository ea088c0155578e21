-- ===== src/Trim/Strip.antt =====
-- The loops of `cli_trim` that strip the ends of the line, and what it makes of a line as a whole.
use cligen.Prelude.{
  ℕ, zero, suc, ◌+◌, ◌-◌, ◌≤◌, ◌<◌, ◌≡◌, refl, ap, ◌∙◌, arith, Bool, true, false, [], ◌∷◌, ltb,
  length, length-set, length-take, get_or, set, take, if◌then◌else◌, Outcome, returns, Returns,
  Returns-bind, Returns-mono, ◌>>=◌, Bool-cases, inl, inr,
}
use cligen.Memory.{Bytes, IsText, cstring}
use cligen.Lines.{is_blank}
use cligen.Edit.{peek, poke, strlen}
use cligen.Edit.Block.{Holds, strlen-Holds, peek_lem, poke_lem, get_or-set, cstring-drop}
use cligen.Edit.Text.{get_or-take, IsText-take}
use cligen.Trim.{is_trailing, trim_loop, strip_heading, strip_trailing, cli_trim, ascii}
use cligen.Trim.Text.{kept, squeezed, without_blanks, stripped, trimmed, stripped-squeezed}
use cligen.Trim.Loop.{Wrote, trim_loop-Wrote}

strip_heading-Holds :
    (b t : Bytes)
    → Holds b t
    → IsText t
    → Returns (strip_heading b) (λ b'. Holds b' (without_blanks t))
unfolding strip_heading without_blanks
strip_heading-Holds [] t h x = absurd (omega (arith, h.0))
strip_heading-Holds (c ∷ b) [] h x = rw (strlen-Holds (c ∷ b) [] h x, Returns) h
strip_heading-Holds (c ∷ b) (d ∷ t) h x =
    let same : c ≡ d = h.1 0 (omega arith) in
    let more : ltb 0 (length (d ∷ t)) ≡ true = ground arith in
    elim (Bool-cases (is_blank d)) [
      | inl blank ↦
          rw (strlen-Holds (c ∷ b) (d ∷ t) h x, more, ap is_blank same, blank)
            (strip_heading-Holds b t (omega (arith, h.0), λ j k. h.1 (suc j) (omega arith)) x.2)
      | inr letter ↦
          rw (strlen-Holds (c ∷ b) (d ∷ t) h x, more, ap is_blank same, letter, Returns) h
    ]

-- The last byte of a text decides whether it is stripped.
stripped_last :
    (n : ℕ) (t : Bytes)
    → length t ≡ suc n
    → stripped t ≡ (if is_trailing (get_or t n 0) then stripped (take n t) else t)
unfolding stripped
stripped_last n [] h = absurd (omega arith)
stripped_last zero (x ∷ []) h = refl
stripped_last (suc n) (x ∷ []) h = absurd (omega arith)
stripped_last zero (x ∷ y ∷ t) h = absurd (omega arith)
stripped_last (suc n) (x ∷ y ∷ t) h =
    let rest = stripped_last n (y ∷ t) (omega arith) in
    elim (Bool-cases (is_trailing (get_or (y ∷ t) n 0))) [
      | inl trailing ↦
          let less : stripped (y ∷ t) ≡ stripped (take n (y ∷ t)) = rest ∙ rw trailing in
          rw trailing (ap (kept x) less)
      | inr letter ↦
          let same : stripped (y ∷ t) ≡ y ∷ t = rest ∙ rw letter in rw letter (ap (kept x) same)
    ]

-- The line without its last byte.
Holds-shorter : (b t : Bytes) (n : ℕ) → Holds b t → length t ≡ suc n → Holds (set b n 0) (take n t)
Holds-shorter b t n h size = (
  omega (arith, length-set b n 0, length-take n t, h.0),
  λ j k. ground (arith, get_or-set b n 0 j 1, h.0, h.1 j, get_or-take n t j, length-take n t),
)

-- A round of the loop at the last byte.
module _ (fuel n c : ℕ) (b : Bytes) (long : strlen b ≡ returns (suc n))
    (read : peek b n ≡ returns c) where
  abbrev at_length : ℕ → Outcome Bytes
  at_length k = elim (ltb 0 k) [
    | false ↦ returns b
    | true ↦ peek b (k - 1) >>= λ d. elim (is_trailing d) [
      | true ↦ poke b (k - 1) 0 >>= strip_trailing fuel
      | false ↦ returns b
    ]
  ]

  at_end : at_length (suc n) ≡ (
      peek b n >>= λ d. elim (is_trailing d) [
        | true ↦ poke b n 0 >>= strip_trailing fuel
        | false ↦ returns b
      ])
  at_end =
      let more : ltb 0 (suc n) ≡ true = ground arith in
      let last : suc n - 1 ≡ n = omega arith in
      rw (at_length, more)
        (ap
          (λ i. peek b i >>= λ d. elim (is_trailing d) [
            | true ↦ poke b i 0 >>= strip_trailing fuel
            | false ↦ returns b
          ])
          last)

  at_strlen : strip_trailing (suc fuel) b ≡ at_length (suc n)
  unfolding strip_trailing
  at_strlen = rw long

  at_byte :
      (peek b n >>= λ d. elim (is_trailing d) [
        | true ↦ poke b n 0 >>= strip_trailing fuel
        | false ↦ returns b
      ])
      ≡ elim (is_trailing c) [ true ↦ poke b n 0 >>= strip_trailing fuel | false ↦ returns b ]
  at_byte = rw read

  last_round :
      strip_trailing (suc fuel) b
      ≡ elim (is_trailing c) [ true ↦ poke b n 0 >>= strip_trailing fuel | false ↦ returns b ]
  last_round = at_strlen ∙ at_end ∙ at_byte

  strip_more :
      is_trailing c ≡ true
      → n < length b
      → strip_trailing (suc fuel) b ≡ strip_trailing fuel (set b n 0)
  strip_more trailing less = last_round ∙ rw (trailing, poke_lem b n 0 less)

  strip_done : is_trailing c ≡ false → strip_trailing (suc fuel) b ≡ returns b
  strip_done letter = last_round ∙ rw letter

strip_trailing-Holds :
    (fuel : ℕ) (b t : Bytes)
    → Holds b t
    → IsText t
    → length t < fuel
    → Returns (strip_trailing fuel b) (λ b'. Holds b' (stripped t))
unfolding strip_trailing stripped
strip_trailing-Holds zero b t h x enough = absurd (omega arith)
strip_trailing-Holds (suc fuel) b [] h x enough = rw (strlen-Holds b [] h x, Returns) h
strip_trailing-Holds (suc fuel) b (d ∷ t) h x enough =
    let n = length t in
    let long = strlen-Holds b (d ∷ t) h x in
    let read : peek b n ≡ returns (get_or (d ∷ t) n 0) =
      peek_lem b n (omega (arith, h.0)) ∙ ap returns (h.1 n (omega arith)) in
    let last = stripped_last n (d ∷ t) refl in
    elim (Bool-cases (is_trailing (get_or (d ∷ t) n 0))) [
      | inl trailing ↦
          rw
            (
              strip_more fuel n (get_or (d ∷ t) n 0) b long read trailing (omega (arith, h.0)),
              last,
              trailing,
            )
            (strip_trailing-Holds fuel (set b n 0) (take n (d ∷ t))
              (Holds-shorter b (d ∷ t) n h refl) (IsText-take n (d ∷ t) x)
              (omega (arith, length-take n (d ∷ t))))
      | inr letter ↦
          rw (strip_done fuel n (get_or (d ∷ t) n 0) b long read letter, last, letter, Returns) h
    ]

-- What is written is a text, which is not longer than the line.
IsText-squeezed :
    (comment : ℕ) (w f : Bool) (t : Bytes) → IsText t → IsText (squeezed comment w f t)
unfolding squeezed
IsText-squeezed comment w f [] x = tt
IsText-squeezed comment w f (c ∷ t) x =
    ground (
      arith,
      x,
      IsText-squeezed comment true false t x.2,
      IsText-squeezed comment false false t x.2,
    )

length-squeezed :
    (comment : ℕ) (w f : Bool) (t : Bytes) → length (squeezed comment w f t) ≤ length t
unfolding squeezed
length-squeezed comment w f [] = omega arith
length-squeezed comment w f (c ∷ t) =
    ground (arith, length-squeezed comment true false t, length-squeezed comment false false t)

IsText-without_blanks : (t : Bytes) → IsText t → IsText (without_blanks t)
unfolding without_blanks
IsText-without_blanks [] x = tt
IsText-without_blanks (c ∷ t) x = ground (arith, x, IsText-without_blanks t x.2)

IsText-stripped : (t : Bytes) → IsText t → IsText (stripped t)
unfolding stripped
IsText-stripped [] x = tt
IsText-stripped (c ∷ t) x = kept-IsText (stripped t) (IsText-stripped t x.2)
  where
    kept-IsText : (u : Bytes) → IsText u → IsText (kept c u)
    kept-IsText [] y = ground (arith, x)
    kept-IsText (d ∷ u) y = (x.0, x.1, y)

-- The loop starts at the beginning of the line.
loop-Holds :
    (comment : ℕ) (block line : Bytes)
    → Holds block line
    → IsText line
    → Returns
        (trim_loop (length line + 1) comment 0 0 false block)
        (λ b. Holds b (squeezed comment false true line))
loop-Holds comment block line h x =
    let rounds : length line + 1 ≡ suc (length line) = omega arith in
    rw rounds (
      Returns-mono (trim_loop (suc (length line)) comment 0 0 false block)
        (Wrote 0 (squeezed comment false true line) block)
        (λ b. Holds b (squeezed comment false true line))
        (trim_loop-Wrote comment 0 0 false line block
          (
            omega (arith, h.0),
            λ j k.
                ap (λ n. get_or block n 1) (let same : 0 + j ≡ j = omega arith in same) ∙ h.1 j k,
          )
          (omega arith) x)
        (λ b w. (
          omega (arith, w.0, h.0, length-squeezed comment false true line),
          λ j k. ap (λ n. get_or b n 1) (let same : j ≡ 0 + j = omega arith in same) ∙ w.2 j k,
        )))

-- On a block with a line, `cli_trim` returns, and what it returns is the words of the line before a comment, with one
-- blank between them, without blanks and newlines at the end. A comment begins with the comment character at the
-- beginning of the line or behind a blank; none does where the character is NUL or not ASCII.
pub cli_trim-trimmed :
    (comment : ℕ) (block line : Bytes)
    → Holds block line
    → IsText line
    → Returns (cli_trim comment block) (λ b. cstring b ≡ trimmed (ascii comment) line)
unfolding cli_trim
cli_trim-trimmed comment block line h x = rw (strlen-Holds block line h x) (
    Returns-bind (trim_loop (length line + 1) (ascii comment) 0 0 false block)
      (λ s. strip_heading s >>= λ s1. strip_trailing (length s1) s1) (λ b. Holds b written)
      (λ b. cstring b ≡ trimmed (ascii comment) line) (loop-Holds (ascii comment) block line h x)
      (λ s hs.
        Returns-bind (strip_heading s) (λ s1. strip_trailing (length s1) s1)
          (λ b. Holds b (without_blanks written)) (λ b. cstring b ≡ trimmed (ascii comment) line)
          (strip_heading-Holds s written hs written-IsText)
          (λ s1 hs1.
            Returns-mono (strip_trailing (length s1) s1)
              (λ b. Holds b (stripped (without_blanks written)))
              (λ b. cstring b ≡ trimmed (ascii comment) line)
              (strip_trailing-Holds (length s1) s1 (without_blanks written) hs1
                (IsText-without_blanks written written-IsText) hs1.0)
              (λ b hb.
                cstring-drop b (stripped (without_blanks written)) 0 hb
                  (IsText-stripped (without_blanks written)
                    (IsText-without_blanks written written-IsText))
                  (omega arith)
                ∙ stripped-squeezed (ascii comment) line))))
  where
    written : Bytes
    written = squeezed (ascii comment) false true line

    written-IsText : IsText written
    written-IsText = IsText-squeezed (ascii comment) false true line x
