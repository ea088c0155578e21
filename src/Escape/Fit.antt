-- ===== src/Escape/Fit.antt =====
-- The block of `cligen_escape_do`, for a string that needs an escape.
use cligen.Prelude.{
  ℕ, ◌+◌, ◌-◌, ◌≤◌, ◌<◌, ◌≡◌, refl, ap, ◌∙◌, sym, arith, Bool, true, false, ◌||◌, some, [], ◌∷◌,
  ◌++◌, ◌==◌, ltb, length, Bool-cases, inl, inr, length-append, take, take_all, append_assoc,
  append-nil, returns, Returns, Returns-mono, Returns-eq,
}
use cligen.Memory.{
  Bytes, Machine, size_max, int_max, fresh, length-fresh, malloc_granted, store, store_lem,
}
use cligen.Escape.{write_next, copy_from, fill, escape_do}
use cligen.Escape.Text.{body, quoted, has_special, length-body}

-- One more character behind what was written.
store_next :
    (block front : Bytes) (j c : ℕ)
    → length front ≡ j
    → take j block ≡ front
    → j < length block
    → (b : Bytes) × (store block j (c ∷ []) ≡ some b)
      × (length b ≡ length block)
      × (take (j + 1) b ≡ front ++ (c ∷ []))
store_next block front j c e f h =
    let (b, is, size, took) = store_lem block j (c ∷ []) (omega arith) in
    (b, is, size, took ∙ ap (λ t. t ++ (c ∷ [])) f)

pub write_next_lem :
    (block front : Bytes) (j c : ℕ)
    → length front ≡ j
    → take j block ≡ front
    → j < length block
    → j < int_max
    → (b : Bytes) × (write_next block j c ≡ returns (b, j + 1))
      × (length b ≡ length block)
      × (take (j + 1) b ≡ front ++ (c ∷ []))
unfolding write_next
write_next_lem block front j c e f h small =
    let (b, is, size, took) = store_next block front j c e f h in
    (b, rw (is, (let e : ltb j int_max ≡ true = ground arith in e)) refl, size, took)

-- What the loop has done: the block's size is the same, and the text stands in front.
abbrev pub Filled : Bytes → Bytes → Bytes × ℕ → Type 0
Filled block text (b, j) = (length b ≡ length block) × (length text ≡ j) × (take j b ≡ text)

abbrev escapes : ℕ → Bool
escapes c = c == b'?' || c == b'\\'

body-escaped : (c : ℕ) (cs : Bytes) → escapes c ≡ true → body (c ∷ cs) ≡ b'\\' ∷ (c ∷ body cs)
unfolding body
body-escaped c cs h = rw h

body-kept : (c : ℕ) (cs : Bytes) → escapes c ≡ false → body (c ∷ cs) ≡ c ∷ body cs
unfolding body
body-kept c cs h = rw h

body_nil : body [] ≡ []
unfolding body
body_nil = refl

Filled-eq :
    (block b text text' : Bytes) (r : Bytes × ℕ)
    → length b ≡ length block
    → text ≡ text'
    → Filled b text r
    → Filled block text' r
Filled-eq block b text text' (b', j) size same (size', at, took) =
    (size' ∙ size, sym (ap (λ (t : Bytes). length t) same) ∙ at, took ∙ same)

one_more : (front : Bytes) (j c : ℕ) → length front ≡ j → length (front ++ (c ∷ [])) ≡ j + 1
one_more front j c e = omega (arith, length-append front (c ∷ []))

copy_from-Filled :
    (cs block front : Bytes) (j : ℕ)
    → length front ≡ j
    → take j block ≡ front
    → j + length (body cs) ≤ length block
    → j + length (body cs) ≤ int_max
    → Returns (copy_from block j cs) (Filled block (front ++ body cs))
unfolding copy_from
copy_from-Filled [] block front j e f h small =
    Filled-eq block block front (front ++ body []) (block, j) refl
      (sym (ap (λ t. front ++ t) body_nil ∙ append-nil front)) (refl, e, f)
copy_from-Filled (c ∷ cs) block front j e f h small = elim (Bool-cases (escapes c)) [
  | inl escaped ↦
      let (b, is, size, took) =
        write_next_lem block front j b'\\' e f (omega (arith, more escaped))
          (omega (arith, more escaped)) in
      let (b', is', size', took') =
        write_next_lem b (front ++ (b'\\' ∷ [])) (j + 1) c (one_more front j b'\\' e) took
          (omega (arith, more escaped)) (omega (arith, more escaped)) in
      rw (escaped, is, is')
        (Returns-mono _ (Filled b' (((front ++ (b'\\' ∷ [])) ++ (c ∷ [])) ++ body cs)) _
          (copy_from-Filled cs b' _ (j + 1 + 1) (one_more _ (j + 1) c (one_more front j b'\\' e))
            took' (omega (arith, more escaped)) (omega (arith, more escaped)))
          (λ r. Filled-eq block b' _ _ r (size' ∙ size) (
            append_assoc (front ++ (b'\\' ∷ [])) (c ∷ []) (body cs)
            ∙ append_assoc front (b'\\' ∷ []) (c ∷ body cs)
            ∙ ap (λ t. front ++ t) (sym (body-escaped c cs escaped)))))
  | inr kept ↦
      let (b, is, size, took) =
        write_next_lem block front j c e f (omega (arith, more_kept kept))
          (omega (arith, more_kept kept)) in
      rw (kept, is)
        (Returns-mono _ (Filled b ((front ++ (c ∷ [])) ++ body cs)) _
          (copy_from-Filled cs b _ (j + 1) (one_more front j c e) took
            (omega (arith, more_kept kept)) (omega (arith, more_kept kept)))
          (λ r. Filled-eq block b _ _ r size (
            append_assoc front (c ∷ []) (body cs)
            ∙ ap (λ t. front ++ t) (sym (body-kept c cs kept)))))
]
  where
    more : escapes c ≡ true → length (body (c ∷ cs)) ≡ length (body cs) + 2
    more t = ap (λ (t : Bytes). length t) (body-escaped c cs t) ∙ omega arith

    more_kept : escapes c ≡ false → length (body (c ∷ cs)) ≡ length (body cs) + 1
    more_kept t = ap (λ (t : Bytes). length t) (body-kept c cs t) ∙ omega arith

-- The first quote and the loop.
pub opened-Filled :
    (s block : Bytes)
    → 1 + length (body s) ≤ length block
    → 1 + length (body s) ≤ int_max
    → (b : Bytes) × (write_next block 0 b'"' ≡ returns (b, 1))
      × Returns (copy_from b 1 s) (Filled block (b'"' ∷ body s))
opened-Filled s block h small =
    let (b, is, size, took) =
      write_next_lem block [] 0 b'"' refl refl (omega arith) (omega arith) in
    (
      b,
      is,
      Returns-mono _ (Filled b (b'"' ∷ body s)) _
          (copy_from-Filled s b (b'"' ∷ []) 1 refl took (omega arith) (omega arith))
          (λ r. Filled-eq block b _ _ r size refl),
    )

-- In a block of the right size the text and its NUL are the whole block.
fill-quoted :
    (s block : Bytes)
    → length block ≡ length (body s) + 3
    → length (body s) + 3 ≤ int_max
    → fill s block ≡ returns (some (quoted s ++ (0 ∷ [])))
unfolding fill
fill-quoted s block h small =
    let (b, is, r) = opened-Filled s block (omega arith) (omega arith) in
    let ((b', j), copied, (size, at, took)) =
      Returns-eq (copy_from b 1 s) (Filled block (b'"' ∷ body s)) r in
    let (c, is', size', took') =
      write_next_lem b' (b'"' ∷ body s) j b'"' at took (omega arith) (omega arith) in
    let (d, is'', size'', took'') =
      store_next c (quoted s) (j + 1) 0 (one_more (b'"' ∷ body s) j b'"' at) took' (omega arith) in
    rw (is, copied, is', is'')
      (ap (λ (t : Bytes). returns (some t)) (sym (take_all d (j + 1 + 1) (omega arith)) ∙ took''))

-- `cligen_escape_do` of a string with a blank, a `?` or a backslash, whose escaped text with its NUL
-- has a length that an int can hold and is granted memory, does not write outside of its block, which has the
-- quoted text, with a backslash before each `?` and `\`, and a NUL, and nothing else.
pub escape_do-quoted :
    (m : Machine) (s : Bytes)
    → has_special s ≡ true
    → length (body s) + 3 ≤ int_max
    → m.grants (length (body s) + 3) ≡ true
    → escape_do m (some s) ≡ returns (some (quoted s ++ (0 ∷ [])))
unfolding escape_do
escape_do-quoted m s special small given =
    let (nr, e, block) = length-body s special small in
    rw (e, fits nr block, block, malloc_granted m (length (body s) + 3) given)
      (fill-quoted s (fresh m 0 (length (body s) + 3)) (length-fresh m 0 (length (body s) + 3))
        small)
  where
    fits :
        (nr : ℕ)
        → length s + 1 + nr ≡ length (body s) + 3
        → ltb (size_max - nr - 1) (length s) ≡ false
    fits nr block = ground arith
