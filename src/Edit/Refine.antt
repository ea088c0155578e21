-- ===== src/Edit/Refine.antt =====
-- What each key, and each sequence of keys, does to the line.
use cligen.Prelude.{◌+◌, ◌<◌, ◌≡◌, Bool, true, false, List, [], ◌∷◌, length}
use cligen.History.Enlarge.{half_max}
use cligen.Edit.Press.{is_char, opens, Key, char, ctrl_d}
use cligen.Edit.Text.{Line, typed}

-- A key that edits: a character of the line, ^D where the line is not empty, or another control key.
abbrev pub IsKey : Bool → Line → Key → Type 0
IsKey escape l (char c) = is_char escape c ≡ true
IsKey escape l ctrl_d = 0 < length l.text
IsKey escape l _ = Unit

-- The line after the keys: a backslash is left out where it stands before another byte, and the
-- byte behind it, even a backslash, is kept.
abbrev pub type_all : Bool → Line → List Key → Line
type_all escape l [] = l
type_all escape l (k ∷ ks) = elim (opens escape k) [
  | true ↦ type_all true l ks
  | false ↦ type_all false (typed l k) ks
]

-- Each key edits, and at each key the line and what was killed, which a key may put into it, are not
-- too long.
abbrev pub Fits : Bool → Line → List Key → Type 0
Fits escape l [] = Unit
Fits escape l (k ∷ ks) = elim (opens escape k) [
  | true ↦ Fits true l ks
  | false ↦
      (length l.text + length l.killed + 1 < half_max)
      × IsKey escape l k
      × Fits false (typed l k) ks
]
