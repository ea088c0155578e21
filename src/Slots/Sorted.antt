-- ===== src/Slots/Sorted.antt =====
-- Vectors in strictly ascending order, and what ordered insertion and search do to them.
use cligen.Prelude.{
  ℕ, zero, suc, ◌≤◌, ◌<◌, ◌≡◌, ◌≢◌, arith, Option, some, List, [], ◌∷◌, inl, inr, length, get_elem?,
  All, All-get_elem?,
}
use Prim.Native.Nat.{Ordering}
use Prim.Native.Nat.Ordering.{lt, eq, gt}
use cligen.Order.{with_null, Ordering-cases}
use cligen.Slots.Search.{Split}

module _ {ℓ} {A : Type ℓ} (cmp : A → A → Ordering) where
  abbrev pub Above : Option A → List (Option A) → Type 0
  Above x = All (λ y. with_null cmp x y ≡ lt)

  -- NULL comes first, and no two slots are equal.
  abbrev pub IsSorted : List (Option A) → Type 0
  IsSorted [] = Unit
  IsSorted (x ∷ xs) = Above x xs × IsSorted xs

-- The number of slots that the object is greater than, up to the first that it is not.
unfoldable pub place {ℓ} : {A : Type ℓ} → (Option A → Ordering) → List (Option A) → ℕ
place probe [] = 0
place probe (x ∷ xs) =
    let rest = place probe xs in elim (probe x) [ gt ↦ suc rest | lt ↦ 0 | eq ↦ 0 ]

-- The probe compares something with the slots as `cmp` does.
abbrev pub Fits {ℓ} : {A : Type ℓ} → (A → A → Ordering) → (Option A → Ordering) → Type ℓ
Fits {A} cmp probe = (x y : Option A) → with_null cmp x y ≡ lt → probe x ≢ gt → probe y ≡ lt

module _ {ℓ} {A : Type ℓ} (cmp : A → A → Ordering) (probe : Option A → Ordering)
    (fits : Fits cmp probe) where
  place-le : (xs : List (Option A)) → place probe xs ≤ length xs
  unfolding place
  place-le [] = omega arith
  place-le (x ∷ xs) = ground (arith, place-le xs)

  place_before :
      (xs : List (Option A)) (i : ℕ) (o : Option A)
      → get_elem? xs i ≡ some o
      → i < place probe xs
      → probe o ≡ gt
  unfolding place
  place_before [] i o e h = absurd (omega arith)
  place_before (x ∷ xs) zero o e h = ground arith
  place_before (x ∷ xs) (suc i) o e h = ground (arith, place_before xs i o)

  place_here :
      (xs : List (Option A)) (o : Option A) → get_elem? xs (place probe xs) ≡ some o → probe o ≢ gt
  unfolding place
  place_here [] o e = λ p. cc
  place_here (x ∷ xs) o e = λ p. ground (arith, place_here xs o)

  place_after :
      (xs : List (Option A)) (i : ℕ) (o : Option A)
      → IsSorted cmp xs
      → get_elem? xs i ≡ some o
      → place probe xs < i
      → probe o ≡ lt
  unfolding place
  place_after [] i o s e h = absurd (cc)
  place_after (x ∷ xs) zero o s e h = absurd (omega arith)
  place_after (x ∷ xs) (suc i) o s e h = elim (Ordering-cases (probe x)) [
    | inr (inr p) ↦ place_after xs i o s.1 e (ground (arith, p))
    | inl p ↦ fits x o (All-get_elem? _ xs i o s.0 e) (λ q. cc)
    | inr (inl p) ↦ fits x o (All-get_elem? _ xs i o s.0 e) (λ q. cc)
  ]

  pub IsSorted-Split : (xs : List (Option A)) → IsSorted cmp xs → Split probe xs (place probe xs)
  IsSorted-Split xs s = record {
    inside = place-le xs;
    before = place_before xs;
    after = λ i o. place_after xs i o s;
    here = place_here xs;
  }
