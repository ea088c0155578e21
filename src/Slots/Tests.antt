-- ===== src/Slots/Tests.antt =====
-- Runs of the operations on vectors.
use cligen.Prelude.{ℕ, ◌≡◌, refl, Option, none, some, List, [], ◌∷◌, returns, fault}
use cligen.Memory.{ok, failed}
use cligen.Slots.{i_get, i_clear, i_insert, append, i_delete, trunc}

abbrev three : List (Option ℕ)
three = some 10 ∷ none ∷ some 30 ∷ []

inserts :
    (i_insert three 1 (some 5) ≡ (ok, some 10 ∷ some 5 ∷ none ∷ some 30 ∷ []))
    × (append three (some 5) ≡ (ok, some 10 ∷ none ∷ some 30 ∷ some 5 ∷ []))
    × (i_insert three 4 (some 5) ≡ (failed, three))
unfolding i_insert append
inserts = (refl, refl, refl)

removes :
    (i_delete three 0 ≡ (ok, none ∷ some 30 ∷ []))
    × (i_clear three 2 ≡ (ok, some 10 ∷ none ∷ none ∷ []))
    × (trunc three 2 ≡ (ok, some 10 ∷ none ∷ []))
    × (trunc three 0 ≡ (failed, three))
unfolding i_delete i_clear trunc
removes = (refl, refl, refl, refl)

-- The slot behind the last one is read.
behind_last :
    (i_get three 2 ≡ returns (some 30)) × (i_get three 3 ≡ fault) × (i_get three 4 ≡ returns none)
unfolding i_get
behind_last = (refl, refl, refl)
