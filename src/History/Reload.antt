-- ===== src/History/Reload.antt =====
-- The log of many lines, and of a file.
use cligen.Prelude.{
  ℕ, zero, suc, ◌-◌, ◌≤◌, ◌<◌, ◌≡◌, ◌≢◌, refl, ap, ◌∙◌, sym, subst, arith, Bool, true, false, ◌&&◌,
  Option, none, some, List, [], ◌∷◌, ◌++◌, ◌==◌, length, drop, length-append, length-drop,
  append-nil, append_assoc, Bool-cases, inl, inr,
}
use cligen.Memory.{Bytes, IsText, IsText-append}
use cligen.History.{differs}
use cligen.History.Start.{unlines}
use cligen.History.Log
use cligen.History.Log.{last?, keep_last, has_text}

unfoldable pub add_all : ℕ → List Bytes → List Bytes → List Bytes
add_all bound log [] = log
add_all bound log (line ∷ rest) = add_all bound (Log.add bound log line) rest

-- The log after a file is read; `part` is what was read of a line. What stands behind the last
-- newline is not logged.
unfoldable pub read : ℕ → List Bytes → Bytes → Bytes → List Bytes
read bound log part [] = log
read bound log part (c ∷ cs) = elim (c == b'\n') [
  | true ↦ read bound (Log.add bound log part) [] cs
  | false ↦ read bound log (part ++ (c ∷ [])) cs
]

-- Each line has text and differs from the one before it.
abbrev IsChain : Option Bytes → List Bytes → Type 0
IsChain old [] = Unit
IsChain old (line ∷ rest) =
    (has_text line ≡ true) × (differs old line ≡ true) × IsChain (some line) rest

abbrev IsLog : ℕ → List Bytes → Type 0
IsLog bound log = IsChain none log × (length log ≤ bound)

differs-none : (line : Bytes) → differs none line ≡ true
unfolding differs
differs-none line = refl

IsChain-none : (old : Option Bytes) (xs : List Bytes) → IsChain old xs → IsChain none xs
IsChain-none old [] c = c
IsChain-none old (x ∷ xs) c = (c.0, differs-none x, c.2)

IsChain-drop : (n : ℕ) (xs : List Bytes) → IsChain none xs → IsChain none (drop n xs)
IsChain-drop zero xs c = c
IsChain-drop (suc n) [] c = c
IsChain-drop (suc n) (x ∷ xs) c = IsChain-drop n xs (IsChain-none (some x) xs c.2)

last_or : Option Bytes → List Bytes → Option Bytes
last_or old [] = old
last_or old (x ∷ xs) = last_or (some x) xs

last_or-some : (x : Bytes) (xs : List Bytes) → last_or (some x) xs ≡ last? (x ∷ xs)
unfolding last_or
last_or-some x [] = refl
last_or-some x (y ∷ xs) = last_or-some y xs

last_or-none : (xs : List Bytes) → last_or none xs ≡ last? xs
unfolding last_or
last_or-none [] = refl
last_or-none (x ∷ xs) = last_or-some x xs

IsChain-snoc :
    (old : Option Bytes) (xs : List Bytes) (x : Bytes)
    → IsChain old xs
    → has_text x ≡ true
    → differs (last_or old xs) x ≡ true
    → IsChain old (xs ++ (x ∷ []))
unfolding last_or
IsChain-snoc old [] x c t d = (t, d, tt)
IsChain-snoc old (y ∷ xs) x c t d = (c.0, c.1, IsChain-snoc (some y) xs x c.2 t d)

-- The two tests that a chain makes at its last line.
IsChain-last :
    (old : Option Bytes) (xs : List Bytes) (x : Bytes) (ys : List Bytes)
    → IsChain old (xs ++ (x ∷ ys))
    → (has_text x ≡ true) × (differs (last_or old xs) x ≡ true)
unfolding last_or
IsChain-last old [] x ys c = (c.0, c.1)
IsChain-last old (y ∷ xs) x ys c = IsChain-last (some y) xs x ys c.2

and-split : (a b : Bool) → (a && b) ≡ true → (a ≡ true) × (b ≡ true)
and-split a b h = ground arith

add-IsLog :
    (bound : ℕ) (log : List Bytes) (line : Bytes)
    → IsLog bound log
    → IsLog bound (Log.add bound log line)
unfolding Log.add
add-IsLog bound log line l = elim (Bool-cases (has_text line && differs (last? log) line)) [
  | inl new ↦
      let (text, other) = and-split (has_text line) (differs (last? log) line) new in
      rw new (
        IsChain-drop _ (log ++ (line ∷ [])) (
            IsChain-snoc none log line l.0 text
              (ap (λ o. differs o line) (last_or-none log) ∙ other)),
        omega (
          arith,
          length-drop (length (log ++ (line ∷ [])) - bound) (log ++ (line ∷ [])),
          length-append log (line ∷ []),
        ),
      )
  | inr same ↦ rw same l
]

add_all-IsLog :
    (bound : ℕ) (log xs : List Bytes) → IsLog bound log → IsLog bound (add_all bound log xs)
unfolding add_all
add_all-IsLog bound log [] l = l
add_all-IsLog bound log (x ∷ xs) l =
    add_all-IsLog bound (Log.add bound log x) xs (add-IsLog bound log x l)

-- A line that keeps a log of lines within the bound is put last.
add-snoc :
    (bound : ℕ) (log : List Bytes) (x : Bytes) (ys : List Bytes)
    → IsLog bound (log ++ (x ∷ ys))
    → Log.add bound log x ≡ log ++ (x ∷ [])
unfolding Log.add
add-snoc bound log x ys l =
    let (text, other) = IsChain-last none log x ys l.0 in
    rw (text, sym (ap (λ o. differs o x) (last_or-none log)) ∙ other, none_over)
  where
    none_over : length (log ++ (x ∷ [])) - bound ≡ 0
    none_over = omega (arith, l.1, length-append log (x ∷ ys), length-append log (x ∷ []))

add_all-append :
    (bound : ℕ) (log xs : List Bytes) → IsLog bound (log ++ xs) → add_all bound log xs ≡ log ++ xs
unfolding add_all
add_all-append bound log [] l = sym (append-nil log)
add_all-append bound log (x ∷ xs) l =
    ap (λ r. add_all bound r xs) (add-snoc bound log x xs l)
    ∙ add_all-append bound (log ++ (x ∷ [])) xs
        (subst (IsLog bound) (sym (append_assoc log (x ∷ []) xs)) l)
    ∙ append_assoc log (x ∷ []) xs

-- Logging the lines of a log once more gives the log.
pub add_all-add_all :
    (bound : ℕ) (xs : List Bytes) → add_all bound [] (add_all bound [] xs) ≡ add_all bound [] xs
add_all-add_all bound xs =
    add_all-append bound [] (add_all bound [] xs) (add_all-IsLog bound [] xs (tt, omega arith))

-- A line as a C program reads it: no newline and no NUL.
abbrev IsClean : Bytes → Type 0
IsClean [] = Unit
IsClean (c ∷ cs) = (c ≢ b'\n') × (0 < c) × (c < 256) × IsClean cs

abbrev pub AllClean : List Bytes → Type 0
AllClean [] = Unit
AllClean (l ∷ ls) = IsClean l × AllClean ls

read_line :
    (bound : ℕ) (log : List Bytes) (part line rest : Bytes)
    → IsClean line
    → read bound log part (line ++ (b'\n' ∷ rest))
      ≡ read bound (Log.add bound log (part ++ line)) [] rest
unfolding read
read_line bound log part [] rest c =
    ap (λ l. read bound (Log.add bound log l) [] rest) (sym (append-nil part))
read_line bound log part (x ∷ line) rest c =
    rw (not_newline x c.0, read)
      (read_line bound log (part ++ (x ∷ [])) line rest c.3
        ∙ ap (λ l. read bound (Log.add bound log l) [] rest) (append_assoc part (x ∷ []) line))
  where
    not_newline : (x : ℕ) → x ≢ b'\n' → (x == b'\n') ≡ false
    not_newline x ne = ground arith

-- Reading lines that were written is logging them.
pub read-unlines :
    (bound : ℕ) (log ls : List Bytes)
    → AllClean ls
    → read bound log [] (unlines ls) ≡ add_all bound log ls
unfolding add_all
read-unlines bound log [] c = unfold read in refl
read-unlines bound log (l ∷ ls) c =
    read_line bound log [] l (unlines ls) c.0 ∙ read-unlines bound (Log.add bound log l) ls c.1

IsClean-IsText : (l : Bytes) → IsClean l → IsText l
IsClean-IsText [] c = tt
IsClean-IsText (x ∷ l) c = (c.1, c.2, IsClean-IsText l c.3)

-- A file of clean lines is a text.
pub unlines-IsText : (ls : List Bytes) → AllClean ls → IsText (unlines ls)
unlines-IsText [] c = tt
unlines-IsText (l ∷ ls) c =
    IsText-append l (b'\n' ∷ unlines ls) (IsClean-IsText l c.0)
      (omega arith, omega arith, unlines-IsText ls c.1)
