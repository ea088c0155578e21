-- ===== src/Lines/Tests.antt =====
-- A run of `cligen_txt2cvv`.
use cligen.Prelude.{◌≡◌, refl, returns, [], ◌∷◌}
use cligen.Lines.{txt2cvv, lines_from}
use cligen.Lines.Split.{txt2cvv-text_of}

-- " a", an empty line and "b"
txt2cvv-text_of_example :
    txt2cvv (b' ' ∷ b'a' ∷ b'\n' ∷ b'\n' ∷ b'b' ∷ [])
    ≡ returns ((b'a' ∷ []) ∷ [] ∷ (b'b' ∷ []) ∷ [])
txt2cvv-text_of_example =
    txt2cvv-text_of ((b' ' ∷ b'a' ∷ []) ∷ [] ∷ []) (b'b' ∷ []) ((refl, (refl, tt)), (tt, tt))
      (refl, tt)

blank_rest : txt2cvv (b'a' ∷ b' ' ∷ b'\n' ∷ b' ' ∷ []) ≡ returns ((b'a' ∷ b' ' ∷ []) ∷ [])
unfolding txt2cvv lines_from
blank_rest = refl
