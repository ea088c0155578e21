-- ===== src/Lines.antt =====
-- `cligen_txt2cvv` of cligen_cvec.c: a text is split into lines.
mod Split
mod Tests
use cligen.Prelude.{
  ℕ, ◌+◌, Bool, true, false, ◌&&◌, ◌||◌, List, [], ◌∷◌, ◌++◌, ◌==◌, ltb, length, if◌then◌else◌,
  Outcome, returns, fault,
}
use cligen.Memory.{Bytes, int_max}

-- isblank(3)
abbrev pub is_blank : ℕ → Bool
is_blank c = c == b' ' || c == b'\t'

-- The loop of `cligen_txt2cvv`, for a text whose length an int can hold, with the vector as the list of its strings, whose memory is granted.
-- `part` is the string between `i0` and `i`; where `whitespace` is set it is empty, and a blank moves
-- `i0` behind itself.
pub lines_from : Bool → Bytes → Bytes → List Bytes
lines_from whitespace part [] = if length part == 0 then [] else part ∷ []
lines_from whitespace part (c ∷ s) =
    let skipped = lines_from whitespace [] s in
    let ended = lines_from true [] s in
    let longer = lines_from false (part ++ (c ∷ [])) s in
    if whitespace && is_blank c then skipped else if c == b'\n' then part ∷ ended else longer

-- The index `i` goes up to the length of the text: it is an int, whose overflow is undefined.
pub txt2cvv : Bytes → Outcome (List Bytes)
txt2cvv str = if ltb int_max (length str) then fault else returns (lines_from true [] str)
