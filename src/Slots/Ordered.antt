-- ===== src/Slots/Ordered.antt =====
-- Ordered insertion keeps the order, and a search behind it finds the new object and all others.
use cligen.Prelude.{
  ◌≡◌, refl, ap, ◌∙◌, sym, arith, Option, none, some, List, [], ◌∷◌, inl, inr, All, All-get_elem?,
  Outcome, returns, Returns, Returns-bind, ◌>>=◌, get_elem?, length, ◌+◌, suc, ℕ,
}
use Prim.Native.Nat.{Ordering}
use Prim.Native.Nat.Ordering.{lt, eq, gt}
use cligen.Order.{IsOrder, with_null, with_null-IsOrder, Ordering-cases, lt-eq_trans, swap}
use cligen.Slots.Search.{found, Split-cong, search1_lem}
use cligen.Slots.{search1}
use cligen.Slots.Sorted.{IsSorted, IsSorted-Split, Fits, place, Above}
use cligen.Slots.Insert.{put_in, combined, behind}

-- Every object of a vector satisfies a predicate.
abbrev pub OnSlot : {A : Type 0} → (A → Type 0) → Option A → Type 0
OnSlot Q none = Unit
OnSlot Q (some c) = Q c

-- An object that is equal to the new one can be combined with it, to one that is still equal.
abbrev pub Combines :
    {A : Type 0} → (A → A → Ordering) → (A → A → Outcome A) → (A → Type 0) → A → A → Type 0
Combines cmp combine Q co c = cmp co c ≡ eq → Returns (combine c co) (λ c'. (cmp c' c ≡ eq) × Q c')

module _ {A : Type 0} {cmp : A → A → Ordering} (order : IsOrder cmp) where
  with : IsOrder (with_null cmp)
  with = with_null-IsOrder order

  -- What is above a slot is above a lesser one, too.
  Above-trans :
      (x y : Option A) (xs : List (Option A))
      → with_null cmp x y ≡ lt
      → Above cmp y xs
      → Above cmp x xs
  Above-trans x y [] h a = tt
  Above-trans x y (z ∷ xs) h a = (with.lt_trans x y z h a.0, Above-trans x y xs h a.1)

  Above-eq :
      (x y : Option A) (xs : List (Option A))
      → with_null cmp x y ≡ eq
      → Above cmp y xs
      → Above cmp x xs
  Above-eq x y [] h a = tt
  Above-eq x y (z ∷ xs) h a = (with.eq_left x y z h ∙ a.0, Above-eq x y xs h a.1)

  module _ (combine : A → A → Outcome A) (Q : A → Type 0) (co : A) (good : Q co) where
    abbrev Keeps : List (Option A) → Option A × List (Option A) → Type 0
    Keeps xs r =
        IsSorted cmp r.1
        × ((x : Option A) → with_null cmp x (some co) ≡ lt → Above cmp x xs → Above cmp x r.1)
        × All (OnSlot Q) r.1

    later-Keeps :
        (y : Option A) (xs : List (Option A))
        → with_null cmp y (some co) ≡ lt
        → Above cmp y xs
        → OnSlot Q y
        → (r : Option A × List (Option A)) → Keeps xs r
        → Keeps (y ∷ xs) (r.0, y ∷ r.1)
    later-Keeps y xs h a q r k = ((k.1 y h a, k.0), (λ x hx ax. (ax.0, k.1 x hx ax.1)), (q, k.2))

    equal-Keeps :
        (c c' : A) (xs : List (Option A))
        → cmp co c ≡ eq
        → cmp c' c ≡ eq
        → IsSorted cmp (some c ∷ xs)
        → Q c'
        → All (OnSlot Q) xs
        → Keeps (some c ∷ xs) (some c', some c' ∷ xs)
    equal-Keeps c c' xs p q s qc qs =
        ((Above-eq (some c') (some c) xs q s.0, s.1), (λ x h a. (below x h, a.1)), (qc, qs))
      where
        below : (x : Option A) → with_null cmp x (some co) ≡ lt → with_null cmp x (some c') ≡ lt
        below x h =
            lt-eq_trans with x (some c) (some c') (lt-eq_trans with x (some co) (some c) h p)
              (with.flip (some c') (some c) ∙ ap swap q)

    pub put_in-Keeps :
        (xs : List (Option A))
        → IsSorted cmp xs
        → All (OnSlot Q) xs
        → All (OnSlot (Combines cmp combine Q co)) xs
        → Returns (put_in cmp combine co xs) (Keeps xs)
    unfolding put_in
    put_in-Keeps [] s q cs = ((tt, tt), (λ x h a. (h, tt)), (good, tt))
    put_in-Keeps (none ∷ xs) s q cs =
        Returns-bind (put_in cmp combine co xs) _ (Keeps xs) _ (put_in-Keeps xs s.1 q.1 cs.1)
          (later-Keeps none xs refl s.0 tt)
    put_in-Keeps (some c ∷ xs) s q cs = by_order (cmp co c) refl (put_in-Keeps xs s.1 q.1 cs.1)
      where
        by_order :
            (o : Ordering)
            → cmp co c ≡ o
            → Returns (put_in cmp combine co xs) (Keeps xs)
            → Returns
                (elim o [
                  | gt ↦ put_in cmp combine co xs >>= behind cmp combine co (some c)
                  | lt ↦ returns (some co, some co ∷ some c ∷ xs)
                  | eq ↦ combined cmp combine co (some c) xs
                ])
                (Keeps (some c ∷ xs))
        by_order lt p ih =
            (((p, Above-trans (some co) (some c) xs p s.0), s), (λ x h a. (h, a)), (good, q))
        by_order eq p ih =
            Returns-bind (combine c co) _ _ (Keeps (some c ∷ xs)) (cs.0 p)
              (λ c' r. equal-Keeps c c' xs p r.0 s r.1 q.1)
        by_order gt p ih =
            Returns-bind (put_in cmp combine co xs) _ (Keeps xs) _ ih
              (later-Keeps (some c) xs (with.flip (some co) (some c) ∙ ap swap p) s.0 q.0)

-- Which object a search finds behind an insertion.
abbrev pub new_or_old {ℓ} : {A : Type ℓ} → Ordering → A → A → A
new_or_old lt new old = old
new_or_old eq new old = new
new_or_old gt new old = old

-- The first slot that is equal, looked for from the front.
pub find {ℓ} : {A : Type ℓ} → (Option A → Ordering) → List (Option A) → Option A
find probe [] = none
find probe (x ∷ xs) = let rest = find probe xs in elim (probe x) [ gt ↦ rest | lt ↦ none | eq ↦ x ]

pub found-place {ℓ} :
    {A : Type ℓ} (probe : Option A → Ordering) (xs : List (Option A))
    → found probe (get_elem? xs (place probe xs)) ≡ find probe xs
unfolding find place
found-place probe [] = refl
found-place probe (x ∷ xs) = by_order (probe x) refl (found-place probe xs)
  where
    slot : Ordering → ℕ
    slot o = elim o [ gt ↦ suc (place probe xs) | lt ↦ 0 | eq ↦ 0 ]

    by_order :
        (o : Ordering)
        → probe x ≡ o
        → found probe (get_elem? xs (place probe xs)) ≡ find probe xs
        → found probe (get_elem? (x ∷ xs) (slot o))
          ≡ elim o [ gt ↦ find probe xs | lt ↦ none | eq ↦ x ]
    by_order lt p ih = rw (found, p)
    by_order eq p ih = rw (found, p)
    by_order gt p ih = ih

module _ {A : Type 0} {cmp : A → A → Ordering} (order : IsOrder cmp) (key : Option A) where
  abbrev probe : Option A → Ordering
  probe = with_null cmp key

  find-Above :
      (x : Option A) (xs : List (Option A)) → probe x ≡ lt → Above cmp x xs → find probe xs ≡ none
  unfolding find
  find-Above x [] h a = refl
  find-Above x (y ∷ xs) h a = rw (find, (with order).lt_trans key x y h a.0)

  find_below : (x : Option A) (xs : List (Option A)) → probe x ≡ lt → find probe (x ∷ xs) ≡ none
  unfolding find
  find_below x xs p = rw (find, p)

  find_beyond :
      (x : Option A) (xs : List (Option A)) → probe x ≡ gt → find probe (x ∷ xs) ≡ find probe xs
  unfolding find
  find_beyond x xs p = rw (find, p)

  find_here : (x : Option A) (xs : List (Option A)) → probe x ≡ eq → find probe (x ∷ xs) ≡ x
  unfolding find
  find_here x xs p = rw (find, p)

  module _ (combine : A → A → Outcome A) (Q : A → Type 0) (co : A) where
    abbrev Finds : List (Option A) → Option A × List (Option A) → Type 0
    Finds xs r = find probe r.1 ≡ new_or_old (probe (some co)) r.0 (find probe xs)

    later-Finds :
        (y : Option A) (xs : List (Option A))
        → with_null cmp y (some co) ≡ lt
        → (r : Option A × List (Option A)) → Finds xs r
        → Finds (y ∷ xs) (r.0, y ∷ r.1)
    unfolding find
    later-Finds y xs h r k = by_order (probe y) refl
      where
        by_order :
            (o : Ordering)
            → probe y ≡ o
            → elim o [ gt ↦ find probe r.1 | lt ↦ none | eq ↦ y ]
              ≡ new_or_old
                  (probe (some co))
                  r.0
                  (elim o [ gt ↦ find probe xs | lt ↦ none | eq ↦ y ])
        by_order lt p = rw ((with order).lt_trans key y (some co) p h)
        by_order eq p = rw ((with order).eq_left key y (some co) p ∙ h)
        by_order gt p = k

    -- A new slot before the rest of a vector, whose search is known.
    front-Finds :
        (c : Option A) (xs : List (Option A)) (old : Option A)
        → (probe c ≡ gt → find probe xs ≡ old)
        → (probe c ≡ lt → old ≡ none)
        → find probe (c ∷ xs) ≡ new_or_old (probe c) c old
    front-Finds c xs old on_gt on_lt = elim (Ordering-cases (probe c)) [
      | inl p ↦ find_below c xs p ∙ sym (rw (p, new_or_old) (on_lt p))
      | inr (inl p) ↦ find_here c xs p ∙ sym (rw (p, new_or_old))
      | inr (inr p) ↦ find_beyond c xs p ∙ on_gt p ∙ sym (rw (p, new_or_old))
    ]

    equal-Finds :
        (c c' : A) (xs : List (Option A))
        → cmp co c ≡ eq
        → cmp c' c ≡ eq
        → Finds (some c ∷ xs) (some c', some c' ∷ xs)
    equal-Finds c c' xs p q =
        front-Finds (some c') xs (find probe (some c ∷ xs))
          (λ h. sym (find_beyond (some c) xs (sym old ∙ h)))
          (λ h. find_below (some c) xs (sym old ∙ h))
        ∙ ap (λ o. new_or_old o (some c') (find probe (some c ∷ xs))) (old ∙ sym new)
      where
        along : (d : A) → cmp d c ≡ eq → probe (some d) ≡ probe (some c)
        along d h =
            (with order).flip (some d) key
            ∙ ap swap ((with order).eq_left (some d) (some c) key h)
            ∙ sym ((with order).flip (some c) key)

        old : probe (some c') ≡ probe (some c)
        old = along c' q

        new : probe (some co) ≡ probe (some c)
        new = along co p

    pub put_in-Finds :
        (xs : List (Option A))
        → IsSorted cmp xs
        → All (OnSlot (Combines cmp combine Q co)) xs
        → Returns (put_in cmp combine co xs) (Finds xs)
    unfolding put_in
    put_in-Finds [] s cs = front-Finds (some co) [] _ (λ h. refl) (λ h. unfold find in refl)
    put_in-Finds (none ∷ xs) s cs =
        Returns-bind (put_in cmp combine co xs) _ (Finds xs) _ (put_in-Finds xs s.1 cs.1)
          (later-Finds none xs refl)
    put_in-Finds (some c ∷ xs) s cs = by_order (cmp co c) refl (put_in-Finds xs s.1 cs.1)
      where
        by_order :
            (o : Ordering)
            → cmp co c ≡ o
            → Returns (put_in cmp combine co xs) (Finds xs)
            → Returns
                (elim o [
                  | gt ↦ put_in cmp combine co xs >>= behind cmp combine co (some c)
                  | lt ↦ returns (some co, some co ∷ some c ∷ xs)
                  | eq ↦ combined cmp combine co (some c) xs
                ])
                (Finds (some c ∷ xs))
        by_order lt p ih =
            front-Finds (some co) (some c ∷ xs) _ (λ h. refl)
              (λ h. find_below (some c) xs ((with order).lt_trans key (some co) (some c) h p))
        by_order eq p ih =
            Returns-bind (combine c co) _ _ (Finds (some c ∷ xs)) (cs.0 p)
              (λ c' q. equal-Finds c c' xs p q.0)
        by_order gt p ih =
            Returns-bind (put_in cmp combine co xs) _ (Finds xs) _ ih
              (later-Finds (some c) xs ((with order).flip (some co) (some c) ∙ ap swap p))

-- Bisection in a sorted vector finds what a search from the front finds, if the comparison of the
-- code agrees with the order in the vector.
module _ {ℓ} {A : Type ℓ} (cmp : A → A → Ordering) (probe probe' : Option A → Ordering) where
  found-cong :
      (o : Option (Option A))
      → ((x : Option A) → o ≡ some x → probe' x ≡ probe x)
      → found probe' o ≡ found probe o
  found-cong none same = refl
  found-cong (some x) same = rw (found, same x refl)

  pub search1-find :
      (xs : List (Option A))
      → Fits cmp probe
      → IsSorted cmp xs
      → All (λ o. probe' o ≡ probe o) xs
      → search1 (length xs + 2) probe' xs 0 (length xs + 1) ≡ returns (find probe xs)
  search1-find xs fits sorted same =
      let p = place probe xs in
      let split = Split-cong probe probe' xs p same (IsSorted-Split cmp probe fits xs sorted) in
      search1_lem probe' xs p split (length xs + 2) 0 (length xs + 1) (omega arith)
        (omega (arith, split.inside)) (omega arith) (omega arith)
        (λ o e h. omega (arith, split.inside))
      ∙ ap returns (
          found-cong (get_elem? xs p) (λ x e. All-get_elem? _ xs p x same e) ∙ found-place probe xs)
