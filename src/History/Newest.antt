-- ===== src/History/Newest.antt =====
-- The slots of the ring, counted from the newest line back.
use cligen.Prelude.{
  ℕ, zero, suc, ◌+◌, ◌-◌, ◌%◌, ◌≤◌, ◌<◌, ◌≡◌, refl, ap, ◌∙◌, sym, arith, true, false, Option, none,
  some, List, [], ◌∷◌, ltb, if◌then◌else◌, length, get_or, get_elem?, get_elem?-get_or, returns,
  Bool-cases, inl, inr,
}
use cligen.Memory.{Bytes}
use cligen.History.{Hist, slot}
use cligen.History.Window.{length-window, get_or-window, behind}
use cligen.History.Add.{IsValid, IsLine, ages, lines}
use cligen.History.Log.{somes, AllSome, IsPacked, length-somes, length-somes-le}

-- The line that is the `j`-th newest, from 0.
abbrev pub newest : List Bytes → ℕ → Option Bytes
newest xs j = if ltb j (length xs) then get_elem? xs (length xs - 1 - j) else none

get_or-AllSome :
    (P : Bytes → Type 0) (w : List (Option Bytes)) (i : ℕ)
    → AllSome P w
    → get_or w i none ≡ get_elem? (somes w) i
get_or-AllSome P [] i h = refl
get_or-AllSome P (none ∷ w) i h = absurd h
get_or-AllSome P (some x ∷ w) zero h = refl
get_or-AllSome P (some x ∷ w) (suc i) h = get_or-AllSome P w i h.1

get_or-IsPacked :
    (P : Bytes → Type 0) (w : List (Option Bytes)) (j : ℕ)
    → IsPacked P w
    → j < length w
    → get_or w (length w - 1 - j) none ≡ newest (somes w) j
get_or-IsPacked P [] j h lt = absurd (omega arith)
get_or-IsPacked P (none ∷ w) j h lt = elim (Bool-cases (ltb j (length w))) [
  | inl near ↦
      ap (λ i. get_or (none ∷ w) i none) (index (length w) j (ground arith))
      ∙ get_or-IsPacked P w j h (ground arith)
  | inr far ↦
      ap (λ i. get_or (none ∷ w) i none) (first (length w) j (ground arith))
      ∙ sym (if_false (somes w) (ground (arith, length-somes-le w)))
]
  where
    index : (n j : ℕ) → j < n → suc n - 1 - j ≡ suc (n - 1 - j)
    index n j h = omega arith

    first : (n j : ℕ) → n ≤ j → suc n - 1 - j ≡ 0
    first n j h = omega arith

    if_false : (xs : List Bytes) → ltb j (length xs) ≡ false → newest xs j ≡ none
    if_false xs e = rw e
get_or-IsPacked P (some x ∷ w) j h lt =
    get_or-AllSome P (some x ∷ w) (suc (length w) - 1 - j) h
    ∙ ap (λ n. get_elem? (x ∷ somes w) (suc n - 1 - j)) (sym (length-somes P w h.1))
    ∙ sym (if_true (x ∷ somes w) (ground (arith, length-somes P w h.1)))
  where
    if_true :
        (xs : List Bytes)
        → ltb j (length xs) ≡ true
        → newest xs j ≡ get_elem? xs (length xs - 1 - j)
    if_true xs e = rw e

-- The index of the slot `k` steps behind `last`.
abbrev pub behind_last : Hist → ℕ → ℕ
behind_last h k = (h.last + (h.size - k)) % h.size

-- It holds the `k`-th newest line, from 1.
pub slot-newest :
    (h : Hist) (k : ℕ)
    → IsValid h
    → k + 1 < h.size
    → get_or h.slots (behind_last h (k + 1)) none ≡ newest (lines h) k
slot-newest h k v lt =
    ap (λ i. get_or h.slots i none) (behind h.size h.last (k + 1) v.last_in (omega arith) lt)
    ∙ sym (
        get_or-window h.size none h.slots ((h.last + 1) % h.size) (h.size - 1)
          (h.size - 1 - (k + 1)) (omega arith) (omega arith))
    ∙ ap (λ i. get_or (ages h) i none) index
    ∙ get_or-IsPacked (IsLine h.bufsize) (ages h) k v.packed (omega (arith, count))
  where
    count : length (ages h) ≡ h.size - 1
    count = length-window h.size none h.slots ((h.last + 1) % h.size) (h.size - 1)

    index : h.size - 1 - (k + 1) ≡ length (ages h) - 1 - k
    index = omega (arith, count)

pub slot_in :
    (h : Hist) (i : ℕ) → IsValid h → i < h.size → slot h.slots i ≡ returns (get_or h.slots i none)
unfolding slot
slot_in h i v lt = rw (get_elem?-get_or h.slots i none (omega (arith, v.sized)))
