-- ===== src/Escape.antt =====
-- cligen_expand.c: a string with blanks, `?` or `\` is put in quotes. cligen_cv.c takes the
-- backslashes away.
pub mod Text
pub mod Fit
mod Overrun
mod Tests
use cligen.Prelude.{
  ℕ, ◌+◌, ◌-◌, Bool, true, false, not, ◌||◌, ◌&&◌, Option, none, some, List, [], ◌∷◌, ◌++◌, ◌==◌,
  ltb, length, get_or, replicate, if◌then◌else◌, Outcome, returns, fault, ◌>>=◌, within,
}
use cligen.Memory.{Bytes, Machine, size_max, int_max, malloc, store}

abbrev pub is_space : ℕ → Bool
is_space c = c == b' ' || c == b'\t'

-- The characters that strpbrk(3) is asked for.
abbrev pub is_special : ℕ → Bool
is_special c = c == b'?' || (c == b'\\' || is_space c)

-- What a special character adds to `nr`: its backslash, and room for the quotes at the first.
abbrev pub counted : ℕ → ℕ → ℕ
counted nr c = (if nr == 0 then 2 else nr) + (if is_space c then 0 else 1)

-- The loop of `cligen_escape_nr`. `nr` is an int, whose overflow is undefined.
pub count_from : ℕ → Bytes → Outcome ℕ
count_from nr [] = returns nr
count_from nr (c ∷ cs) =
    let special = count_from (counted nr c) cs in
    let other = count_from nr cs in
    if not (is_special c) then other else if ltb int_max (counted nr c) then fault else special

-- `cligen_escape_nr`
pub escape_nr : Bytes → Outcome ℕ
escape_nr s = count_from 0 s

-- `cligen_escape_need`; `none` is the error for a null pointer.
pub escape_need : Option Bytes → Outcome (Option Bool)
escape_need none = returns none
escape_need (some s) = escape_nr s >>= λ nr. returns (
    if nr == 0
    then some false
    else if ltb 1 (length s) && (get_or s 0 0 == b'"' && get_or s (length s - 1) 0 == b'"')
    then some false
    else some true)

-- A byte is written at `j`, and `j`, an int, is increased. The index `i` of the source is never
-- above `j`, so it is an int as well.
pub write_next : Bytes → ℕ → ℕ → Outcome (Bytes × ℕ)
write_next block j c =
    within (store block j (c ∷ [])) >>= λ b. if ltb j int_max then returns (b, j + 1) else fault

-- The loop of `cligen_escape_do`, with the block and `j` after it.
pub copy_from : Bytes → ℕ → Bytes → Outcome (Bytes × ℕ)
copy_from block j [] = returns (block, j)
copy_from block j (c ∷ cs) =
    if c == b'?' || c == b'\\'
    then (write_next block j b'\\' >>= λ r. write_next r.0 r.1 c >>= λ r'. copy_from r'.0 r'.1 cs)
    else (write_next block j c >>= λ r. copy_from r.0 r.1 cs)

-- What `cligen_escape_do` does with the block that it has allocated.
pub fill : Bytes → Bytes → Outcome (Option Bytes)
fill s block = do
  (b, one) ← write_next block 0 b'"'
  (b', j) ← copy_from b one s
  (b'', end) ← write_next b' j b'"'
  last ← within (store b'' end (0 ∷ []))
  returns (some last)

-- `cligen_escape_do`; `none` is the null pointer.
pub escape_do : Machine → Option Bytes → Outcome (Option Bytes)
escape_do m none = returns none
escape_do m (some s) = escape_nr s >>= λ nr.
    if ltb (size_max - nr - 1) (length s)
    then returns none
    else elim (malloc m (length s + 1 + nr)) [ none ↦ returns none | some block ↦ fill s block ]

-- The first loop of `string_remove_backslash`: what is written to the front of the string, which
-- is never ahead of what is read.
pub unescape_from : Bool → Bytes → Bytes
unescape_from escape [] = []
unescape_from true (c ∷ cs) = c ∷ unescape_from false cs
unescape_from false (c ∷ cs) =
    if c == b'\\' then unescape_from true cs else c ∷ unescape_from false cs

-- `string_remove_backslash`, with the zeros behind the text.
pub remove_backslash : Bytes → Bytes
remove_backslash s =
    let text = unescape_from false s in text ++ replicate (length s - length text) 0
