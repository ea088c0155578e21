-- ===== src/Slots.antt =====
-- The vector of a parse tree, `pt_vec` of cligen_parsetree.c, and the search in it of cligen_object.c.
-- A slot is an object or NULL. Memory is granted.
pub mod Search
pub mod Sorted
pub mod Insert
pub mod Ordered
mod Tests
use cligen.Prelude.{
  ℕ, zero, suc, ◌+◌, ◌-◌, ◌/◌, Bool, true, false, Option, none, some, List, [], ◌∷◌, ◌++◌, ◌==◌,
  ltb, leb, length, get_elem?, set, take, drop, if◌then◌else◌, Outcome, returns, diverges, fault,
  within, ◌>>=◌,
}
use Prim.Native.Nat.{Ordering}
use Prim.Native.Nat.Ordering.{lt, eq, gt}
use cligen.Order.{with_null}
use cligen.Memory.{Status, ok, failed}

module _ {ℓ} {A : Type ℓ} where
  -- `pt_vec_i_get`. Its bound is `i > pt_len`, so the slot behind the last one is read; a vector
  -- without slots is NULL.
  unfoldable pub i_get : List (Option A) → ℕ → Outcome (Option A)
  i_get [] i = returns none
  i_get (x ∷ xs) i = if ltb (length (x ∷ xs)) i then returns none else within (get_elem? (x ∷ xs) i)

  pub i_clear : List (Option A) → ℕ → Status × List (Option A)
  i_clear xs i = if leb (length xs) i then (failed, xs) else (ok, set xs i none)

  -- `pt_realloc` puts a NULL behind the last slot.
  pub enlarge : List (Option A) → List (Option A)
  enlarge xs = xs ++ none ∷ []

  -- memmove(3) of the slots from `i` on to those from `i + 1` on, up to the end
  abbrev shift : List (Option A) → ℕ → List (Option A)
  shift xs i = take (i + 1) xs ++ take (length xs - (i + 1)) (drop i xs)

  unfoldable pub i_insert : List (Option A) → ℕ → Option A → Status × List (Option A)
  unfolding enlarge
  i_insert xs i co =
      if ltb (length xs) i then (failed, xs) else (ok, set (shift (enlarge xs) i) i co)

  pub append : List (Option A) → Option A → Status × List (Option A)
  append xs co = i_insert xs (length xs) co

  pub i_delete : List (Option A) → ℕ → Status × List (Option A)
  i_delete xs i = if leb (length xs) i then (failed, xs) else (ok, take i xs ++ drop (i + 1) xs)

  pub trunc : List (Option A) → ℕ → Status × List (Option A)
  trunc xs n =
      if n == 0 then (failed, xs) else if ltb (length xs) n then (failed, xs) else (ok, take n xs)

-- `upper1` is `upper + 1`, since `upper` may be -1. Each round halves the interval, so its length is
-- fuel enough.
module _ {ℓ} {A : Type ℓ} where
  -- `co_insert_pos` for an object; `probe` compares it with a slot.
  unfoldable pub insert_pos : ℕ → (Option A → Ordering) → List (Option A) → ℕ → ℕ → Outcome ℕ
  insert_pos zero probe xs low upper1 = diverges
  insert_pos (suc fuel) probe xs low upper1 =
      let mid = (low + upper1 - 1) / 2 in
      let left = insert_pos fuel probe xs low mid in
      let right = insert_pos fuel probe xs (mid + 1) upper1 in
      if leb upper1 low
      then returns low
      else if leb (length xs) mid
      then returns (length xs)
      else i_get xs mid >>= λ co2. elim (probe co2) [ lt ↦ left | gt ↦ right | eq ↦ returns mid ]

  -- `co_search1`
  unfoldable pub search1 : ℕ → (Option A → Ordering) → List (Option A) → ℕ → ℕ → Outcome (Option A)
  search1 zero probe xs low upper1 = diverges
  search1 (suc fuel) probe xs low upper1 =
      let mid = (low + upper1 - 1) / 2 in
      let left = search1 fuel probe xs low mid in
      let right = search1 fuel probe xs (mid + 1) upper1 in
      if leb upper1 low
      then returns none
      else if leb (length xs) mid
      then returns none
      else i_get xs mid >>= λ co. elim (probe co) [ lt ↦ left | gt ↦ right | eq ↦ returns co ]

-- `co_insert_pos` for NULL, from 0 to the number of slots.
unfoldable pub null_pos {ℓ} : {A : Type ℓ} → List (Option A) → ℕ
null_pos xs = if leb (length xs) (length xs / 2) then length xs else 0

-- `co_insert1`; `cmp` is `co_eq`, and `combine` merges the children of the new object into those of
-- the old one. It returns the object in the tree, and the vector.
module _ {ℓ} {A : Type ℓ} (cmp : A → A → Ordering) (combine : A → A → Outcome A) where
  abbrev pub inserted_as :
      Option A → Status × List (Option A) → Outcome (Option A × List (Option A))
  inserted_as co (ok, xs) = returns (co, xs)
  inserted_as co (failed, xs) = returns (none, xs)

  abbrev pub insert_at : ℕ → Option A → List (Option A) → Outcome (Option A × List (Option A))
  insert_at pos co xs = inserted_as co (i_insert xs pos co)

  unfoldable pub insert1_null : List (Option A) → Outcome (Option A × List (Option A))
  unfolding null_pos
  insert1_null xs =
      let pos = null_pos xs in
      if ltb pos (length xs)
      then (i_get xs pos >>= λ co2. elim co2 [
        | none ↦ returns (none, xs)
        | some c ↦ insert_at pos none xs
      ])
      else insert_at pos none xs

  -- What it does behind the search, at the position that is found.
  unfoldable pub insert_or_merge : A → List (Option A) → ℕ → Outcome (Option A × List (Option A))
  insert_or_merge co1 xs pos =
      if ltb pos (length xs)
      then (i_get xs pos >>= λ co2. elim co2 [
        | none ↦ insert_at pos (some co1) xs
        | some c2 ↦ elim (cmp co1 c2) [
          | eq ↦ combine c2 co1 >>= λ c. returns (some c, set xs pos (some c))
          | lt ↦ insert_at pos (some co1) xs
          | gt ↦ insert_at pos (some co1) xs
        ]
      ])
      else insert_at pos (some co1) xs

  unfoldable pub insert1_object : A → List (Option A) → Outcome (Option A × List (Option A))
  unfolding insert_or_merge insert_pos
  insert1_object co1 xs =
      insert_pos (length xs + 2) (with_null cmp (some co1)) xs 0 (length xs + 1)
      >>= insert_or_merge co1 xs
