-- ===== src/Escape/Tests.antt =====
-- Runs of the escaping functions.
use cligen.Prelude.{◌≡◌, refl, arith, true, false, some, [], ◌∷◌, ◌++◌, returns, fault}
use cligen.Memory.{Bytes, Machine}
use cligen.Escape.{escape_nr, escape_need, count_from, escape_do}
use cligen.Escape.Text.{body, quoted, has_special}
use cligen.Escape.Fit.{escape_do-quoted}
use cligen.Escape.Overrun.{escape_do_plain}

abbrev roomy : Machine
roomy = record { grants = λ n. true; junk = λ i. 170 }

-- "a ?"
abbrev question : Bytes
question = b'a' ∷ b' ' ∷ b'?' ∷ []

needs :
    (escape_need (some question) ≡ returns (some true))
    × (escape_need (some (b'a' ∷ [])) ≡ returns (some false))
    × (escape_nr question ≡ returns 3)
unfolding escape_need escape_nr count_from
needs = (refl, refl, refl)

question_is_special : has_special question ≡ true
unfolding has_special
question_is_special = refl

body_of_question : body question ≡ b'a' ∷ b' ' ∷ b'\\' ∷ b'?' ∷ []
unfolding body
body_of_question = refl

escape_do-quoted_example :
    escape_do roomy (some question) ≡ returns (some (quoted question ++ (0 ∷ [])))
unfolding body
escape_do-quoted_example = escape_do-quoted roomy question question_is_special (omega arith) refl

a_is_plain : has_special (b'a' ∷ []) ≡ false
unfolding has_special
a_is_plain = refl

escape_do_plain_example : escape_do roomy (some (b'a' ∷ [])) ≡ fault
escape_do_plain_example = escape_do_plain roomy (b'a' ∷ []) a_is_plain (omega arith) refl
