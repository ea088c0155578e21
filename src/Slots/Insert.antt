-- ===== src/Slots/Insert.antt =====
-- Insertion by bisection is insertion into an ordered list from its front.
use cligen.Prelude.{
  ℕ, zero, suc, ◌+◌, ◌-◌, ◌≤◌, ◌≡◌, refl, sym, ap, ◌∙◌, arith, Option, none, some, List, [], ◌∷◌,
  ◌++◌, inl, inr, Bool-cases, ltb, ltb→lt, lt→ltb, true, false, length, length-append, get_elem?,
  set, take, drop, take-append_left, take_all, All, All-get_elem?, Outcome, returns, fault,
  diverges, ◌>>=◌,
}
use Prim.Native.Nat.{Ordering}
use Prim.Native.Nat.Ordering.{lt, eq, gt}
use cligen.Memory.{ok}
use cligen.Order.{IsOrder, with_null, with_null-IsOrder, Ordering-cases}
use cligen.Slots.{i_insert, insert_at, inserted_as, insert_or_merge, insert1_object}
use cligen.Slots.Search.{Split-cong, insert_pos_lem, get_elem?-some, get_elem?-lt, i_get_lem}
use cligen.Slots.Sorted.{IsSorted, IsSorted-Split, Fits, place}

-- Ordered insertion from the front; an equal object is combined with the new one.
module _ {ℓ} {A : Type ℓ} (cmp : A → A → Ordering) (combine : A → A → Outcome A) (co : A) where
  abbrev pub combined : Option A → List (Option A) → Outcome (Option A × List (Option A))
  combined none xs = fault
  combined (some c2) xs = combine c2 co >>= λ c. returns (some c, some c ∷ xs)

  abbrev pub behind : Option A → Option A × List (Option A) → Outcome (Option A × List (Option A))
  behind x (found, xs) = returns (found, x ∷ xs)

  unfoldable pub put_in : List (Option A) → Outcome (Option A × List (Option A))
  put_in [] = returns (some co, some co ∷ [])
  put_in (x ∷ xs) = elim (with_null cmp (some co) x) [
    | gt ↦ put_in xs >>= behind x
    | lt ↦ returns (some co, some co ∷ x ∷ xs)
    | eq ↦ combined x xs
  ]

module _ {ℓ} {A : Type ℓ} where
  shift_lem :
      (xs : List (Option A)) (i n : ℕ) (co : Option A)
      → i ≤ length xs
      → n ≡ length xs - i
      → set (take (suc i) (xs ++ none ∷ []) ++ take n (drop i (xs ++ none ∷ []))) i co
        ≡ take i xs ++ co ∷ drop i xs
  shift_lem [] zero n co h e = let e' : n ≡ 0 = omega arith in rw e'
  shift_lem [] (suc i) n co h e = absurd (omega arith)
  shift_lem (x ∷ xs) zero n co h e =
      ap (λ t. co ∷ t)
        (take-append_left n (x ∷ xs) _ (omega arith) ∙ take_all (x ∷ xs) n (omega arith))
  shift_lem (x ∷ xs) (suc i) n co h e = ap (◌∷◌ x) (shift_lem xs i n co (omega arith) (omega arith))

  pub i_insert_lem :
      (xs : List (Option A)) (i : ℕ) (co : Option A)
      → i ≤ length xs
      → i_insert xs i co ≡ (ok, take i xs ++ co ∷ drop i xs)
  unfolding i_insert
  i_insert_lem xs i co h =
      let small : ltb (length xs) i ≡ false = ground arith in
      let next : i + 1 ≡ suc i = omega arith in
      rw small (
        ap (λ t. (ok, t))
          (ap (λ k. set (take k grown ++ take (length grown - k) (drop i grown)) i co) next
            ∙ shift_lem xs i _ co h (omega (arith, length-append xs (none ∷ [])))))
    where
      grown : List (Option A)
      grown = xs ++ none ∷ []

module _ {ℓ} {A : Type ℓ} (cmp : A → A → Ordering) (combine : A → A → Outcome A) (co : A) where
  abbrev probe : Option A → Ordering
  probe = with_null cmp (some co)

  abbrev spec : List (Option A) → Outcome (Option A × List (Option A))
  spec = put_in cmp combine co

  abbrev inserted : ℕ → List (Option A) → Outcome (Option A × List (Option A))
  inserted p xs = returns (some co, take p xs ++ some co ∷ drop p xs)

  -- What an insertion at the slot `p` does, by what stands there.
  at_slot : ℕ → List (Option A) → Option (Option A) → Outcome (Option A × List (Option A))
  at_slot p xs none = inserted p xs
  at_slot p xs (some none) = inserted p xs
  at_slot p xs (some (some c2)) = elim (cmp co c2) [
    | eq ↦ combine c2 co >>= λ c. returns (some c, set xs p (some c))
    | lt ↦ inserted p xs
    | gt ↦ inserted p xs
  ]

  at_slot-suc :
      (p : ℕ) (x : Option A) (xs : List (Option A)) (o : Option (Option A))
      → at_slot (suc p) (x ∷ xs) o ≡ (at_slot p xs o >>= behind cmp combine co x)
  unfolding at_slot
  at_slot-suc p x xs none = refl
  at_slot-suc p x xs (some none) = refl
  at_slot-suc p x xs (some (some c2)) = by_order (cmp co c2) (combine c2 co)
    where
      by_order :
          (o : Ordering) (m : Outcome A)
          → elim o [
            | eq ↦ m >>= λ c. returns (some c, x ∷ set xs p (some c))
            | lt ↦ inserted (suc p) (x ∷ xs)
            | gt ↦ inserted (suc p) (x ∷ xs)
          ]
            ≡ (elim o [
              | eq ↦ m >>= λ c. returns (some c, set xs p (some c))
              | lt ↦ inserted p xs
              | gt ↦ inserted p xs
            ]
                >>= behind cmp combine co x)
      by_order lt m = refl
      by_order gt m = refl
      by_order eq (returns c) = refl
      by_order eq fault = refl
      by_order eq diverges = refl

  put_in-at_slot :
      (xs : List (Option A)) → spec xs ≡ at_slot (place probe xs) xs (get_elem? xs (place probe xs))
  unfolding put_in place at_slot
  put_in-at_slot [] = refl
  put_in-at_slot (none ∷ xs) =
      ap (λ m. m >>= behind cmp combine co none) (put_in-at_slot xs)
      ∙ sym (at_slot-suc (place probe xs) none xs (get_elem? xs (place probe xs)))
  put_in-at_slot (some c2 ∷ xs) = by_order (put_in-at_slot xs) (cmp co c2) refl
    where
      later :
          spec xs ≡ at_slot (place probe xs) xs (get_elem? xs (place probe xs))
          → (spec xs >>= behind cmp combine co (some c2))
            ≡ at_slot (suc (place probe xs)) (some c2 ∷ xs) (get_elem? xs (place probe xs))
      later ih =
          ap (λ m. m >>= behind cmp combine co (some c2)) ih
          ∙ sym (at_slot-suc (place probe xs) (some c2) xs (get_elem? xs (place probe xs)))

      slot : Ordering → ℕ
      slot o = elim o [ gt ↦ suc (place probe xs) | lt ↦ 0 | eq ↦ 0 ]

      by_order :
          spec xs ≡ at_slot (place probe xs) xs (get_elem? xs (place probe xs))
          → (o : Ordering) → cmp co c2 ≡ o
          → elim o [
            | gt ↦ spec xs >>= behind cmp combine co (some c2)
            | lt ↦ returns (some co, some co ∷ some c2 ∷ xs)
            | eq ↦ combined cmp combine co (some c2) xs
          ]
            ≡ at_slot (slot o) (some c2 ∷ xs) (get_elem? (some c2 ∷ xs) (slot o))
      by_order ih lt e = rw e refl
      by_order ih eq e = rw e refl
      by_order ih gt e = later ih

  insert_at_lem :
      (xs : List (Option A)) (p : ℕ)
      → p ≤ length xs
      → insert_at cmp combine p (some co) xs ≡ inserted p xs
  insert_at_lem xs p h = ap (inserted_as cmp combine (some co)) (i_insert_lem xs p (some co) h)

  insert_or_merge-at_slot :
      (xs : List (Option A)) (p : ℕ) (o : Option (Option A))
      → p ≤ length xs
      → get_elem? xs p ≡ o
      → insert_or_merge cmp combine co xs p ≡ at_slot p xs o
  unfolding insert_or_merge at_slot
  insert_or_merge-at_slot xs p none h e = elim (Bool-cases (ltb p (length xs))) [
    | inl inside ↦ let (o, e2) = get_elem?-some xs p (ltb→lt _ _ inside) in absurd (cc)
    | inr outside ↦ rw outside (insert_at_lem xs p h)
  ]
  insert_or_merge-at_slot xs p (some o) h e =
      let inside : ltb p (length xs) ≡ true = lt→ltb _ _ (get_elem?-lt xs p o e) in
      rw inside (rw (i_get_lem xs p o (get_elem?-lt xs p o e) e) (by_slot o))
    where
      by_order :
          (c2 : A) (o : Ordering)
          → elim o [
            | eq ↦ combine c2 co >>= λ c. returns (some c, set xs p (some c))
            | lt ↦ insert_at cmp combine p (some co) xs
            | gt ↦ insert_at cmp combine p (some co) xs
          ]
            ≡ elim o [
              | eq ↦ combine c2 co >>= λ c. returns (some c, set xs p (some c))
              | lt ↦ inserted p xs
              | gt ↦ inserted p xs
            ]
      by_order c2 lt = insert_at_lem xs p h
      by_order c2 eq = refl
      by_order c2 gt = insert_at_lem xs p h

      by_slot :
          (o : Option A)
          → elim o [
            | none ↦ insert_at cmp combine p (some co) xs
            | some c2 ↦ elim (cmp co c2) [
              | eq ↦ combine c2 co >>= λ c. returns (some c, set xs p (some c))
              | lt ↦ insert_at cmp combine p (some co) xs
              | gt ↦ insert_at cmp combine p (some co) xs
            ]
          ]
            ≡ at_slot p xs (some o)
      by_slot none = insert_at_lem xs p h
      by_slot (some c2) = by_order c2 (cmp co c2)

module _ {ℓ} {A : Type ℓ} {cmp : A → A → Ordering} (order : IsOrder cmp)
    (combine : A → A → Outcome A) (co : A) where
  pub probe-Fits : Fits cmp (with_null cmp (some co))
  probe-Fits x y below not_gt = elim (Ordering-cases (with_null cmp (some co) x)) [
    | inl p ↦ (with_null-IsOrder order).lt_trans (some co) x y p below
    | inr (inl p) ↦ (with_null-IsOrder order).eq_left (some co) x y p ∙ below
    | inr (inr p) ↦ absurd (not_gt p)
  ]

  at_slot-cong :
      (cmp' : A → A → Ordering) (p : ℕ) (xs : List (Option A)) (o : Option (Option A))
      → ((x : Option A) → o ≡ some x → with_null cmp' (some co) x ≡ with_null cmp (some co) x)
      → at_slot cmp' combine co p xs o ≡ at_slot cmp combine co p xs o
  unfolding at_slot
  at_slot-cong cmp' p xs none same = refl
  at_slot-cong cmp' p xs (some none) same = refl
  at_slot-cong cmp' p xs (some (some c2)) same = rw (at_slot, same (some c2) refl)

  -- `co_insert1` into a sorted vector is ordered insertion. The vector is sorted by an order `cmp`
  -- with which the comparison `cmp'` of the code agrees in the vector.
  pub insert1_object-put_in :
      (cmp' : A → A → Ordering) (xs : List (Option A))
      → IsSorted cmp xs
      → All (λ o. with_null cmp' (some co) o ≡ with_null cmp (some co) o) xs
      → insert1_object cmp' combine co xs ≡ put_in cmp combine co xs
  unfolding insert1_object
  insert1_object-put_in cmp' xs sorted same =
      let p = place (with_null cmp (some co)) xs in
      let split =
        Split-cong _ (with_null cmp' (some co)) xs p same
          (IsSorted-Split cmp _ probe-Fits xs sorted) in
      rw
        (insert_pos_lem _ xs _ split (length xs + 2) 0 (length xs + 1) (omega arith)
          (omega (arith, split.inside)) (omega arith) (omega arith))
        (insert_or_merge-at_slot cmp' combine co xs p _ split.inside refl
          ∙ at_slot-cong cmp' p xs _ (λ x e. All-get_elem? _ xs p x same e)
          ∙ sym (put_in-at_slot cmp combine co xs))
